-- ===== src/Vm/Print.antt =====
-- What vm.c prints of its memory, as the sequence of the lines: the walks and their tests, not the
-- texts.
use osdesign.Base.{ℕ, zero, suc, ◌+◌, List, [], ◌∷◌, ◌++◌, ◌==◌, if◌then◌else◌}
use osdesign.Base.Command.{out_of_fuel, pure, ◌>>=◌}
use osdesign.Vm.Memory.{Ptr, null, Cmd, get, load}
use osdesign.Vm.Boot.{osreserved_start}

-- The lines that say something of the memory; `page` stands for the four of a page.
pub data Line : Type 0 where
  page : (pid : ℕ) → (start : Ptr) → (order size : ℕ) → Line
  contents elsewhere rule free_space : Line
  element : ℕ → Line
  size_line : ℕ → Line

-- The loop of `printOSMemory`, which is the inner loop of `printMemory` too: the elements of a list,
-- counted from `j` on.
unfoldable pub print_elements : ℕ → Ptr → ℕ → Cmd (List Line)
print_elements zero n j = λ v. out_of_fuel
print_elements (suc k) n j = if n == null then pure [] else do
  x ← load n
  lines ← print_elements k x.next (if x.free == 0 then j + 1 else j)
  pure ((if x.free == 0 then element j else free_space) ∷ size_line x.size ∷ lines)

module _ (rounds : ℕ) where
  unfoldable pub print_os_memory : Cmd (List Line)
  unfolding print_elements
  print_os_memory = do
    v ← get
    lines ← print_elements rounds (v.mem + osreserved_start) 1
    pure (rule ∷ lines ++ rule ∷ [])

  -- the lines between the header and the rule of a page
  unfoldable pub print_content : ℕ → Ptr → Cmd (List Line)
  unfolding print_elements
  print_content data_starts_another_page start =
      if data_starts_another_page == 1
      then pure (elsewhere ∷ [])
      else do lines ← print_elements rounds start 1; pure (contents ∷ lines)

  unfoldable pub print_pages : ℕ → Ptr → Cmd (List Line)
  unfolding print_content
  print_pages zero n = λ v. out_of_fuel
  print_pages (suc k) n = if n == null then pure [] else do
    x ← load n
    let later = print_pages k x.next
    if x.free == 0
        then (do
          inside ← print_content x.data_starts_another_page x.start
          lines ← later
          pure (page x.pid x.start x.order x.size ∷ inside ++ rule ∷ lines))
        else later

  unfoldable pub print_memory : Cmd (List Line)
  unfolding print_pages
  print_memory = do v ← get; lines ← print_pages rounds v.mem; pure (rule ∷ lines ++ rule ∷ [])
