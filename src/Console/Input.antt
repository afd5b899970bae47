-- ===== src/Console/Input.antt =====
-- consoleintr of kernel/console.c against a terminal that edits a line.
use ntu_sc2005_xv.Prelude.{
  ℕ, zero, suc, ◌+◌, ◌-◌, ◌%◌, ◌^◌, ◌≤◌, ◌<◌, ◌≡◌, ◌≢◌, refl, sym, subst, ap, ap₂, ◌∙◌, false, not,
  ◌&&◌, ◌||◌, List, [], ◌∷◌, ◌++◌, length, get_or, set, length-set, All, All-at, Bool-cases, inl,
  inr, ltb, ◌==◌, eq→==, ne→==, if◌then◌else◌, arith, ℕ_discrete,
}
use ntu_sc2005_xv.Prelude.Int.{u32}
use ntu_sc2005_xv.Console.{
  input_buf_size, ctrl, newline, carriage_return, Cons, before, consputc, backspace, kill_line,
  store_char, consoleintr,
}
use ntu_sc2005_xv.Console.Lines.{
  between, window, ready, line, IsValid, window-mod, window-set, window-append, length-window,
  window-snoc,
}

pub drop_last : List ℕ → List ℕ
drop_last [] = []
drop_last (x ∷ []) = []
drop_last (x ∷ y ∷ ys) = x ∷ drop_last (y ∷ ys)

-- Lines that can be read, and the line that is being typed.
abbrev pub Terminal : Type 0
Terminal = List ℕ × List ℕ

-- A character that is kept ends the line, or goes to its end.
abbrev pub keep : ℕ → Terminal → Terminal
keep ch (lines, typed) =
    if ch == newline || ch == ctrl b'D' || length lines + length typed + 1 == input_buf_size
    then (lines ++ (typed ++ ch ∷ []), [])
    else (lines, typed ++ ch ∷ [])

abbrev pub type_char : ℕ → Terminal → Terminal
type_char ch (lines, typed) =
    if ch == ctrl b'P'
    then (lines, typed)
    else if ch == ctrl b'U'
    then (lines, [])
    else if ch == ctrl b'H' || ch == 0x7f
    then (lines, drop_last typed)
    else if not (ch == 0) && ltb (length lines + length typed) input_buf_size
    then keep (if ch == carriage_return then newline else ch) (lines, typed)
    else (lines, typed)

-- The line that is being typed has no end.
abbrev pub Plain : Cons → Type 0
Plain c = All (λ x. x ≢ newline) (line c)

-- What a handler leaves.
pub record Shows (c : Cons) (t : Terminal) : Type 0 where
  pub valid : IsValid c
  pub plain : Plain c
  pub lines : ready c ≡ t.0
  pub typed : line c ≡ t.1

drop_last-snoc : (xs : List ℕ) (x : ℕ) → drop_last (xs ++ x ∷ []) ≡ xs
unfolding drop_last
drop_last-snoc [] x = refl
drop_last-snoc (y ∷ []) x = refl
drop_last-snoc (y ∷ z ∷ xs) x = ap (λ r. y ∷ r) (drop_last-snoc (z ∷ xs) x)

module _ (c : Cons) (v : IsValid c) (some_typed : c.e ≢ c.w) where
  abbrev shorter : Cons
  shorter = record c { e = before c.e }

  one_less : between c.w c.e ≡ suc (between c.w shorter.e)
  one_less = omega (arith, some_typed, v.e_fits, v.w_fits)

  last_char : ℕ
  last_char = get_or c.buf (before c.e % input_buf_size) 0

  line_snoc : line c ≡ line shorter ++ last_char ∷ []
  unfolding last_char
  line_snoc =
      let n = between c.w shorter.e in
      let l : between c.w c.e ≡ n + 1 = omega (arith, one_less) in
      let q : (c.w + n) % input_buf_size ≡ before c.e % input_buf_size =
        omega (arith, some_typed, v.e_fits, v.w_fits) in
      ap (window c.buf c.w) l
      ∙ window-append c.buf n 1 c.w
      ∙ ap (λ i. line shorter ++ get_or c.buf i 0 ∷ []) q

  shorter-IsValid : IsValid shorter
  shorter-IsValid = record {
    size = v.size;
    r_fits = v.r_fits;
    w_fits = v.w_fits;
    e_fits = omega arith;
    room = omega (arith, one_less, v.room);
  }

All-front : (P : ℕ → Type 0) (xs : List ℕ) (x : ℕ) → All P (xs ++ x ∷ []) → All P xs
All-front P [] x h = tt
All-front P (y ∷ xs) x h = (h.0, All-front P xs x h.1)

All-snoc : (P : ℕ → Type 0) (xs : List ℕ) (x : ℕ) → All P xs → P x → All P (xs ++ x ∷ [])
All-snoc P [] x h p = (p, tt)
All-snoc P (y ∷ xs) x h p = (h.0, All-snoc P xs x h.1 p)

not_newline :
    (c : Cons) (v : IsValid c) (some_typed : c.e ≢ c.w)
    → last_char c v some_typed ≢ newline
    → (get_or c.buf (before c.e % input_buf_size) 0 == newline) ≡ false
unfolding last_char
not_newline c v some_typed h = ne→== (get_or c.buf (before c.e % input_buf_size) 0) newline h

-- Killing takes the whole line.
kill_line_lem :
    (fuel : ℕ) (c : Cons) (echo : List ℕ)
    → IsValid c
    → Plain c
    → between c.w c.e ≤ fuel
    → (kill_line fuel c echo).0 ≡ record c { e = c.w }
unfolding kill_line
kill_line_lem zero c echo v p h =
    ap (λ (j : ℕ). record c { e = j }) (omega (arith, h, v.e_fits, v.w_fits))
kill_line_lem (suc fuel) c echo v p h = elim (ℕ_discrete c.e c.w) [
  | yes same ↦ rw (kill_line, eq→== c.e c.w same) (ap (λ (j : ℕ). record c { e = j }) same)
  | no ne ↦
      let snoc = line_snoc c v ne in
      let typed = line (shorter c v ne) in
      let last = last_char c v ne in
      let p' : All (λ x. x ≢ newline) (typed ++ last ∷ []) = rw snoc at p in
      let plain_last : (get_or c.buf (before c.e % input_buf_size) 0 == newline) ≡ false =
        not_newline c v ne (All-at (λ x. x ≢ newline) typed last [] p') in
      rw (kill_line, ne→== c.e c.w ne, plain_last)
        (kill_line_lem fuel (shorter c v ne) (echo ++ consputc backspace) (shorter-IsValid c v ne)
          (All-front (λ x. x ≢ newline) typed last p') (omega (arith, one_less c v ne, h)))
]

-- A character more at the end of the line that is being typed.
module _ (c : Cons) (v : IsValid c) (ch : ℕ) (space : between c.r c.e < input_buf_size) where
  abbrev longer : Cons
  longer = record c { buf = set c.buf (c.e % input_buf_size) ch; e = u32 (c.e + 1) }

  counts : between c.r c.w + between c.w c.e ≡ between c.r c.e
  counts = omega (arith, v.room, v.r_fits, v.w_fits, v.e_fits)

  ready_same : ready longer ≡ ready c
  ready_same =
      let n = between c.r c.w in
      let k = between c.w c.e in
      let at : c.e % input_buf_size ≡ (c.r + n + k) % input_buf_size =
        omega (arith, v.r_fits, v.w_fits, v.e_fits) in
      ap (λ i. window (set c.buf i ch) c.r n) at
      ∙ window-set c.buf ch n c.r k (omega (arith, counts, space))

  line_more : line longer ≡ line c ++ ch ∷ []
  line_more =
      let n = between c.w c.e in
      let l : between c.w longer.e ≡ suc n = omega (arith, counts, space, v.w_fits, v.e_fits) in
      ap (window longer.buf c.w) l
      ∙ window-snoc c.buf ch n c.w (c.e % input_buf_size) v.size (omega (arith, counts, space))
          (omega (arith, v.w_fits, v.e_fits))

  longer-IsValid : IsValid longer
  longer-IsValid = record {
    size = length-set c.buf (c.e % input_buf_size) ch ∙ v.size;
    r_fits = v.r_fits;
    w_fits = v.w_fits;
    e_fits = omega arith;
    room = omega (arith, counts, space, v.r_fits, v.w_fits, v.e_fits);
  }

  -- The same, with the line made ready.
  abbrev ended : Cons
  ended = record longer { w = longer.e }

  ended_ready : ready ended ≡ ready c ++ (line c ++ ch ∷ [])
  ended_ready =
      let n = between c.r c.w in
      let m = between c.w longer.e in
      let l : between c.r longer.e ≡ n + m =
        omega (arith, counts, space, v.r_fits, v.w_fits, v.e_fits) in
      let at : (c.r + n) % input_buf_size ≡ c.w % input_buf_size =
        omega (arith, v.r_fits, v.w_fits) in
      ap (window longer.buf c.r) l
      ∙ window-append longer.buf n m c.r
      ∙ ap₂ (λ (a b : List ℕ). a ++ b) ready_same
          (window-mod longer.buf m (c.r + n) c.w at ∙ line_more)

  ended_line : line ended ≡ []
  ended_line =
      let l : between longer.e longer.e ≡ 0 = omega arith in ap (window longer.buf longer.e) l

  ended-IsValid : IsValid ended
  ended-IsValid = record {
    size = longer-IsValid.size;
    r_fits = v.r_fits;
    w_fits = longer-IsValid.e_fits;
    e_fits = longer-IsValid.e_fits;
    room = omega (arith, counts, space, v.r_fits, v.w_fits, v.e_fits);
  }

store_char_lem :
    (ch : ℕ) (c : Cons)
    → IsValid c
    → Plain c
    → between c.r c.e < input_buf_size
    → Shows (store_char ch c).cons (keep ch (ready c, line c))
unfolding store_char
store_char_lem ch c v p space =
    let c' = longer c v ch space in
    let fullness : u32 (c'.e + 2 ^ 32 - c'.r) ≡ length (ready c) + length (line c) + 1 = omega (
      arith,
      counts c v ch space,
      space,
      v.r_fits,
      v.e_fits,
      length-window c.buf c.r (between c.r c.w),
      length-window c.buf c.w (between c.w c.e),
    ) in
    elim (Bool-cases (
      ch == newline
      || ch == ctrl b'D'
      || length (ready c) + length (line c) + 1 == input_buf_size)) [
        | inl ends ↦
            rw (store_char, fullness, ends)
              (record {
                valid = ended-IsValid c v ch space;
                plain = rw (ended_line c v ch space) tt;
                lines = ended_ready c v ch space;
                typed = ended_line c v ch space;
              })
        | inr goes_on ↦
            let other : ch ≢ newline = ground (arith, goes_on) in
            rw (store_char, fullness, goes_on)
              (record {
                valid = longer-IsValid c v ch space;
                plain =
                    rw (line_more c v ch space) (All-snoc (λ x. x ≢ newline) (line c) ch p other);
                lines = ready_same c v ch space;
                typed = line_more c v ch space;
              })
      ]

backspace_lem :
    (c : Cons)
    → IsValid c
    → Plain c
    → Shows (if c.e == c.w then c else record c { e = before c.e }) (ready c, drop_last (line c))
unfolding drop_last
backspace_lem c v p = elim (ℕ_discrete c.e c.w) [
  | yes same ↦
      let none_typed : between c.w c.e ≡ 0 = omega (arith, same, v.w_fits) in
      let nothing : line c ≡ [] = ap (window c.buf c.w) none_typed in
      rw (eq→== c.e c.w same) (record {
        valid = v;
        plain = p;
        lines = refl;
        typed = nothing ∙ sym (ap drop_last nothing);
      })
  | no ne ↦
      let snoc = line_snoc c v ne in
      let p' : All (λ x. x ≢ newline) (line (shorter c v ne) ++ last_char c v ne ∷ []) =
        rw snoc at p in
      rw (ne→== c.e c.w ne) (record {
        valid = shorter-IsValid c v ne;
        plain = All-front (λ x. x ≢ newline) (line (shorter c v ne)) (last_char c v ne) p';
        lines = refl;
        typed = sym (ap drop_last snoc ∙ drop_last-snoc (line (shorter c v ne)) (last_char c v ne));
      })
]

kill_lem : (c : Cons) → IsValid c → Plain c → Shows (kill_line input_buf_size c []).0 (ready c, [])
kill_lem c v p =
    let all : between c.w c.e ≤ input_buf_size = omega (arith, v.room) in
    subst (λ (d : Cons). Shows d (ready c, [])) (sym (kill_line_lem input_buf_size c [] v p all))
      (record {
        valid = record {
          size = v.size;
          r_fits = v.r_fits;
          w_fits = v.w_fits;
          e_fits = v.w_fits;
          room = omega (arith, v.room);
        };
        plain = rw (nothing c v) tt;
        lines = refl;
        typed = nothing c v;
      })
  where
    nothing : (c : Cons) → IsValid c → window c.buf c.w (between c.w c.w) ≡ []
    nothing c v =
        let none_left : between c.w c.w ≡ 0 = omega (arith, v.w_fits) in
        ap (window c.buf c.w) none_left

-- A character that the uart hands to consoleintr changes the lines that can be read and the line that
-- is being typed as it does on a terminal that keeps both as lists: it kills the line, takes back its
-- last character, joins it, or ends it; and it is lost when both together hold 128 characters.
pub consoleintr_lem :
    (ch : ℕ) (c : Cons)
    → IsValid c
    → Plain c
    → Shows (consoleintr ch c).cons (type_char ch (ready c, line c))
unfolding consoleintr
consoleintr_lem ch c v p =
    let same : Shows c (ready c, line c) = record {
      valid = v;
      plain = p;
      lines = refl;
      typed = refl;
    } in
    elim (Bool-cases (ch == ctrl b'P')) [
      | inl is_p ↦ rw (consoleintr, is_p) same
      | inr not_p ↦ elim (Bool-cases (ch == ctrl b'U')) [
        | inl is_u ↦ rw (consoleintr, not_p, is_u) (kill_lem c v p)
        | inr not_u ↦ elim (Bool-cases (ch == ctrl b'H' || ch == 0x7f)) [
          | inl is_h ↦ elim (Bool-cases (c.e == c.w)) [
            | inl q ↦ rw (consoleintr, not_p, not_u, is_h, q) (rw q at (backspace_lem c v p))
            | inr q ↦ rw (consoleintr, not_p, not_u, is_h, q) (rw q at (backspace_lem c v p))
          ]
          | inr not_h ↦
              let total : u32 (c.e + 2 ^ 32 - c.r) ≡ length (ready c) + length (line c) = omega (
                arith,
                v.room,
                v.r_fits,
                v.w_fits,
                v.e_fits,
                length-window c.buf c.r (between c.r c.w),
                length-window c.buf c.w (between c.w c.e),
              ) in
              elim (Bool-cases
                (not (ch == 0) && ltb (length (ready c) + length (line c)) input_buf_size)) [
                  | inl fits ↦
                      let space : between c.r c.e < input_buf_size = ground (arith, total, fits) in
                      rw (consoleintr, not_p, not_u, not_h, total, fits)
                        (store_char_lem (if ch == carriage_return then newline else ch) c v p space)
                  | inr lost ↦ rw (consoleintr, not_p, not_u, not_h, total, lost) same
                ]
        ]
      ]
    ]
