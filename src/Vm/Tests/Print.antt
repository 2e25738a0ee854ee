-- ===== src/Vm/Tests/Print.antt =====
-- What is printed of a memory with two pages.
use osdesign.Base.{◌≡◌, refl, [], ◌∷◌}
use osdesign.Base.Command.{ok}
use osdesign.Vm.Memory.{load}
use osdesign.Vm.Print.{
  page, contents, rule, element, free_space, size_line, print_elements, print_content, print_pages,
  print_memory,
}
use osdesign.Vm.Tests.Pages.{paged}

two_pages :
    print_memory 3 paged
    ≡ ok
        (rule
          ∷ page 5 1000 1 1000
          ∷ contents
          ∷ free_space
          ∷ size_line 944
          ∷ rule
          ∷ page 6 2000 1 1000
          ∷ contents
          ∷ element 1
          ∷ size_line 944
          ∷ rule
          ∷ rule
          ∷ [])
        paged
unfolding print_memory print_pages print_content print_elements load
two_pages = refl
