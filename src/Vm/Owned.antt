-- ===== src/Vm/Owned.antt =====
-- The pages of user memory in an address space of kernel/vm.c.
use ntu_sc2005_xv.Prelude.{
  ℕ, ◌<◌, ◌≡◌, refl, sym, ◌∙◌, Bool, true, false, List, arith, ◌==◌, ltb, leb, ◌&&◌, ◌||◌, not,
}
use ntu_sc2005_xv.Kalloc.{Kmem}
use ntu_sc2005_xv.Kalloc.FreeList.{IsPage}
use ntu_sc2005_xv.Vm.{pte_v, pte2pa, pte_flags}
use ntu_sc2005_xv.Vm.Tree.{leaf}
use ntu_sc2005_xv.Vm.Walk.{IsSpace, Out}

-- The entry maps a page that is neither free nor a table.
pub record IsData (kend root : ℕ) (mem : ℕ → ℕ) (xs : List ℕ) (w : ℕ) : Type 0 where
  pub valid : pte_v w ≡ true
  pub no_table : (pte_flags w == 1) ≡ false
  pub page : IsPage kend (pte2pa w)
  pub outside : Out mem root xs (pte2pa w)

-- Of the virtual pages below `lim`, exactly those of `own` are mapped, each to a page of its own.
pub record Owns (kend root lim : ℕ) (own : ℕ → Bool) (k : Kmem) (xs : List ℕ) : Type 0 where
  pub space : IsSpace kend root k xs
  pub held : (v : ℕ) → v < lim → own v ≡ true → IsData kend root k.mem xs (leaf k.mem root v)
  pub unused : (v : ℕ) → v < lim → own v ≡ false → pte_v (leaf k.mem root v) ≡ false
  pub once :
      (v w : ℕ)
      → v < lim
      → w < lim
      → own v ≡ true
      → own w ≡ true
      → pte2pa (leaf k.mem root v) ≡ pte2pa (leaf k.mem root w)
      → v ≡ w

-- The pages of a process of `n` pages, and those with a gap before page `v`.
abbrev pub upto : ℕ → ℕ → Bool
upto n u = ltb u n

abbrev pub span : ℕ → ℕ → ℕ → ℕ → Bool
span m v n u = ltb u m || (leb v u && ltb u n)

abbrev pub without : (ℕ → Bool) → ℕ → ℕ → Bool
without own v u = own u && not (u == v)

pub Owns-congr :
    (kend root lim : ℕ) (own own' : ℕ → Bool) (k : Kmem) (xs : List ℕ)
    → ((v : ℕ) → v < lim → own' v ≡ own v)
    → Owns kend root lim own k xs
    → Owns kend root lim own' k xs
Owns-congr kend root lim own own' k xs same o = record {
  space = o.space;
  held = λ v h e. o.held v h (sym (same v h) ∙ e);
  unused = λ v h e. o.unused v h (sym (same v h) ∙ e);
  once = λ v w hv hw ev ew p. o.once v w hv hw (sym (same v hv) ∙ ev) (sym (same w hw) ∙ ew) p;
}

-- A page table that maps nothing.
pub no_pages :
    (kend root lim : ℕ) (k : Kmem) (xs : List ℕ)
    → IsSpace kend root k xs
    → ((v : ℕ) → leaf k.mem root v ≡ 0)
    → Owns kend root lim (upto 0) k xs
no_pages kend root lim k xs s zero_leaf = record {
  space = s;
  held = λ v h e. absurd (none_owned v e);
  unused = λ v h e. rw (zero_leaf v) refl;
  once = λ v w hv hw ev ew p. absurd (none_owned v ev);
}
  where
    none_owned : (v : ℕ) → upto 0 v ≡ true → ⊥
    none_owned v e = ground (arith, e)
