-- ===== src/Pipe/Contents.antt =====
-- The bytes that a pipe holds. The counters of `struct pipe` run on and wrap at 2^32.
use ntu_sc2005_xv.Prelude.{
  ℕ, zero, suc, ◌+◌, ◌-◌, ◌%◌, ◌^◌, ◌≤◌, ◌<◌, ◌≡◌, refl, ap, ap₂, ◌∙◌, true, false, List, [], ◌∷◌,
  ◌++◌, length, get_or, set, length-set, get_or-set_self, get_or-set_ne, arith,
}
use ntu_sc2005_xv.Prelude.Int.{u32}
use ntu_sc2005_xv.Pipe.{Pipe, pipesize, init, full, empty, put, head, advance}

-- Bytes between the counters.
abbrev pub count : Pipe → ℕ
count pi = (pi.nwrite + 2 ^ 32 - pi.nread) % 2 ^ 32

-- The `n` bytes from counter `r` on.
abbrev pub window : List ℕ → ℕ → ℕ → List ℕ
window buf r zero = []
window buf r (suc n) = get_or buf (r % pipesize) 0 ∷ window buf (r + 1) n

abbrev pub contents : Pipe → List ℕ
contents pi = window pi.buf pi.nread (count pi)

pub record IsValid (pi : Pipe) : Type 0 where
  pub page : length pi.buf ≡ pipesize
  pub nread_fits : pi.nread < 2 ^ 32
  pub nwrite_fits : pi.nwrite < 2 ^ 32
  pub room : count pi ≤ pipesize

pub init-IsValid : (page : List ℕ) → length page ≡ pipesize → IsValid (init page)
unfolding init
init-IsValid page h = record {
  page = h;
  nread_fits = omega arith;
  nwrite_fits = omega arith;
  room = omega arith;
}

pub length-window : (buf : List ℕ) (r n : ℕ) → length (window buf r n) ≡ n
length-window buf r zero = refl
length-window buf r (suc n) = ap suc (length-window buf (r + 1) n)

-- Only the counter modulo the size of the buffer matters.
window-mod :
    (buf : List ℕ) (n r q : ℕ) → r % pipesize ≡ q % pipesize → window buf r n ≡ window buf q n
window-mod buf zero r q h = refl
window-mod buf (suc n) r q h =
    ap₂ ◌∷◌ (ap (λ i. get_or buf i 0) h) (window-mod buf n (r + 1) (q + 1) (omega arith))

window-set :
    (buf : List ℕ) (x n r i : ℕ)
    → length buf ≡ pipesize
    → n < pipesize
    → i ≡ (r + n) % pipesize
    → window (set buf i x) r (suc n) ≡ window buf r n ++ x ∷ []
window-set buf x zero r i l h e =
    let e' : i ≡ r % pipesize = omega arith in
    rw (e', get_or-set_self buf (r % pipesize) x 0 (omega arith))
window-set buf x (suc n) r i l h e =
    ap₂ ◌∷◌ (get_or-set_ne buf i (r % pipesize) x 0 (omega arith))
      (window-set buf x n (r + 1) i l (omega arith) (omega arith))

module _ {pi : Pipe} (v : IsValid pi) where
  -- The test for a full pipe holds exactly at `pipesize` bytes, and the other at none, also when
  -- the counters have wrapped.
  pub full→count : full pi ≡ true → count pi ≡ pipesize
  full→count h = ground arith

  pub full→lt : full pi ≡ false → count pi < pipesize
  full→lt h = ground arith

  pub empty→count : empty pi ≡ true → count pi ≡ 0
  empty→count h = ground arith

  pub empty→pos : empty pi ≡ false → 0 < count pi
  empty→pos h = ground arith

  pub put-IsValid : (ch : ℕ) → count pi < pipesize → IsValid (put pi ch)
  unfolding put
  put-IsValid ch h = ground (arith, length-set pi.buf (pi.nwrite % pipesize) ch)

  count-put : (ch : ℕ) → count pi < pipesize → count (put pi ch) ≡ suc (count pi)
  unfolding put
  count-put ch h = omega arith

  pub contents-put : (ch : ℕ) → count pi < pipesize → contents (put pi ch) ≡ contents pi ++ ch ∷ []
  unfolding put
  contents-put ch h =
      ap (window (put pi ch).buf pi.nread) (count-put ch h)
      ∙ window-set pi.buf ch (count pi) pi.nread (pi.nwrite % pipesize) v.page h (omega arith)

  pub advance-IsValid : 0 < count pi → IsValid (advance pi)
  unfolding advance
  advance-IsValid h = ground arith

  pub contents-advance : 0 < count pi → contents pi ≡ head pi ∷ contents (advance pi)
  unfolding head advance
  contents-advance h =
      let k = count pi - 1 in
      let more : count pi ≡ suc k = omega arith in
      let fewer : k ≡ count (advance pi) = omega arith in
      let after : (pi.nread + 1) % pipesize ≡ u32 (pi.nread + 1) % pipesize = omega arith in
      ap (window pi.buf pi.nread) more
      ∙ ap (λ (w : List ℕ). head pi ∷ w)
          (window-mod pi.buf k (pi.nread + 1) (u32 (pi.nread + 1)) after
            ∙ ap (window pi.buf (u32 (pi.nread + 1))) fewer)
