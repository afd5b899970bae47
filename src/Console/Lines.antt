-- ===== src/Console/Lines.antt =====
-- What the ring of kernel/console.c holds: the lines that are ready to be read, and the line that is
-- being typed. The indices run on and wrap at 2^32.
use ntu_sc2005_xv.Prelude.{
  ℕ, zero, suc, ◌+◌, ◌-◌, ◌%◌, ◌^◌, ◌≤◌, ◌<◌, ◌≡◌, refl, ap, ap₂, ◌∙◌, List, [], ◌∷◌, ◌++◌, length,
  get_or, set, get_or-set_self, get_or-set_ne, arith,
}
use ntu_sc2005_xv.Prelude.Int.{u32}
use ntu_sc2005_xv.Console.{input_buf_size, Cons}

-- Characters from index `i` up to index `j`.
abbrev pub between : ℕ → ℕ → ℕ
between i j = u32 (j + 2 ^ 32 - i)

-- The `n` characters from index `i` on.
abbrev pub window : List ℕ → ℕ → ℕ → List ℕ
window buf i zero = []
window buf i (suc n) = get_or buf (i % input_buf_size) 0 ∷ window buf (i + 1) n

abbrev pub ready : Cons → List ℕ
ready c = window c.buf c.r (between c.r c.w)

abbrev pub line : Cons → List ℕ
line c = window c.buf c.w (between c.w c.e)

pub record IsValid (c : Cons) : Type 0 where
  pub size : length c.buf ≡ input_buf_size
  pub r_fits : c.r < 2 ^ 32
  pub w_fits : c.w < 2 ^ 32
  pub e_fits : c.e < 2 ^ 32
  pub room : between c.r c.w + between c.w c.e ≤ input_buf_size

-- Only the index modulo the size of the buffer matters.
pub window-mod :
    (buf : List ℕ) (n i j : ℕ)
    → i % input_buf_size ≡ j % input_buf_size
    → window buf i n ≡ window buf j n
window-mod buf zero i j h = refl
window-mod buf (suc n) i j h =
    ap₂ ◌∷◌ (ap (λ k. get_or buf k 0) h) (window-mod buf n (i + 1) (j + 1) (omega arith))

-- A character that is stored elsewhere.
pub window-set :
    (buf : List ℕ) (x n i k : ℕ)
    → n + k < input_buf_size
    → window (set buf ((i + n + k) % input_buf_size) x) i n ≡ window buf i n
window-set buf x zero i k h = refl
window-set buf x (suc n) i k h =
    let at : i + suc n + k ≡ i + 1 + n + k = omega arith in
    ap₂ ◌∷◌
      (get_or-set_ne buf ((i + suc n + k) % input_buf_size) (i % input_buf_size) x 0 (omega arith))
      (ap (λ j. window (set buf (j % input_buf_size) x) (i + 1) n) at
        ∙ window-set buf x n (i + 1) k (omega (arith, h)))

pub window-append :
    (buf : List ℕ) (m n i : ℕ) → window buf i (m + n) ≡ window buf i m ++ window buf (i + m) n
window-append buf zero n i =
    let here : i + 0 ≡ i = omega arith in let all : 0 + n ≡ n = omega arith in rw (here, all) refl
window-append buf (suc m) n i =
    let l : suc m + n ≡ suc (m + n) = omega arith in
    let next : i + suc m ≡ i + 1 + m = omega arith in
    rw (l, next) (ap (λ w. get_or buf (i % input_buf_size) 0 ∷ w) (window-append buf m n (i + 1)))

pub length-window : (buf : List ℕ) (i n : ℕ) → length (window buf i n) ≡ n
length-window buf i zero = refl
length-window buf i (suc n) = ap suc (length-window buf (i + 1) n)

-- The character after a window.
pub window-snoc :
    (buf : List ℕ) (x n i k : ℕ)
    → length buf ≡ input_buf_size
    → n < input_buf_size
    → k ≡ (i + n) % input_buf_size
    → window (set buf k x) i (suc n) ≡ window buf i n ++ x ∷ []
window-snoc buf x zero i k l h e =
    let e' : k ≡ i % input_buf_size = omega arith in
    rw (e', get_or-set_self buf (i % input_buf_size) x 0 (omega arith)) refl
window-snoc buf x (suc n) i k l h e =
    ap₂ ◌∷◌ (get_or-set_ne buf k (i % input_buf_size) x 0 (omega arith))
      (window-snoc buf x n (i + 1) k l (omega arith) (omega arith))
