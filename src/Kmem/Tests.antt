-- ===== src/Kmem/Tests.antt =====
-- Small runs of the page allocator.
use os_ass.Base.{ℕ, ◌≡◌, refl, arith, [], ◌∷◌, true, false}
use os_ass.Kmem.{Kmem}
use os_ass.Kmem.Chain.{IsFree}
use os_ass.Kmem.Range.{freed, range_pages}

abbrev kernel_end : ℕ
kernel_end = 0x80100000

abbrev no_pages : Kmem
no_pages = record { held = false; use_lock = true; freelist = 0; mem = λ _. 0 }

abbrev one_page : Kmem
one_page = record { held = false; use_lock = true; freelist = 0x80200000; mem = λ _. 0 }

one_page-IsFree : IsFree kernel_end one_page (0x80200000 ∷ [])
one_page-IsFree = record {
  idle = refl;
  chain = (refl, record { aligned = refl; above = omega arith; below = omega arith }, refl);
  distinct = (tt, tt);
}

pages_in_order : range_pages 0x80100001 0x80104000 [] ≡ 0x80103000 ∷ 0x80102000 ∷ 0x80101000 ∷ []
unfolding freed
pages_in_order = refl
