-- ===== src/Vm/User.antt =====
-- `uva2ka`: the kernel address of a user page, by the entry of the page.
use os_ass.Base.{ℕ, ◌≡◌, if◌then◌else◌, ◌&&◌, refl, ◌∙◌, true, false, p2v, inl, inr, Bool-cases, ok}
use os_ass.Kmem.{Kmem}
use os_ass.Vm.{present, user, pte_addr, walkpgdir, uva2ka}
use os_ass.Vm.Tables.{pde_of, entry_of, pte_of}
use os_ass.Vm.Walk.{page_of, walkpgdir-find}

-- the address that an entry gives to user code, or 0
abbrev pub user_page : ℕ → ℕ
user_page pte = if present pte && user pte then p2v (pte_addr pte) else 0

uva2ka-entry :
    (k : Kmem) (pgdir uva at : ℕ)
    → walkpgdir k pgdir uva false ≡ ok (at, k)
    → uva2ka k pgdir uva ≡ ok (user_page (k.mem at), k)
unfolding uva2ka
uva2ka-entry k pgdir uva at e = elim (Bool-cases (present (k.mem at))) [
  | inr gone ↦ rw (e, gone) refl
  | inl there ↦ elim (Bool-cases (user (k.mem at))) [
    | inr kernel ↦ rw (e, there, kernel) refl
    | inl ours ↦ rw (e, there, ours) refl
  ]
]

-- Where the directory has a table for the address, `uva2ka` gives the page of its entry if user code may
-- use it and 0 otherwise. Where there is no table, it goes by the word at address 0, since it reads
-- through the null pointer that `walkpgdir` returns. It changes nothing.
uva2ka_lem :
    (k : Kmem) (pgdir uva : ℕ)
    → (present (pde_of k.mem pgdir (page_of uva)) ≡ true
        → uva2ka k pgdir uva ≡ ok (user_page (pte_of k.mem pgdir (page_of uva)), k))
      × (present (pde_of k.mem pgdir (page_of uva)) ≡ false
          → uva2ka k pgdir uva ≡ ok (user_page (k.mem 0), k))
uva2ka_lem k pgdir uva = (
  (λ there.
      uva2ka-entry k pgdir uva (entry_of k.mem pgdir (page_of uva))
        (walkpgdir-find k pgdir uva ∙ rw there refl)
      ∙ rw there refl),
  (λ gone. uva2ka-entry k pgdir uva 0 (walkpgdir-find k pgdir uva ∙ rw gone refl)),
)
