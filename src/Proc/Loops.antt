-- ===== src/Proc/Loops.antt =====
-- The loops of kernel/proc.c over the process table, each against what it does to one process.
use ntu_sc2005_xv.Prelude.{
  ℕ, zero, suc, ◌+◌, ◌≡◌, inl, inr, refl, ◌∙◌, ap, not, ◌&&◌, Option, ◌==◌, leb, ltb, if◌then◌else◌,
  arith, Bool-cases, ℕ_discrete,
}
use ntu_sc2005_xv.Proc.{
  runnable, is_sleeping, nproc, Table, set_proc, points, wake, wake_loop, wakeup,
}

wake_loop_lem :
    (rest p : ℕ) (me : Option ℕ) (chan : ℕ) (t : Table)
    → ((q : ℕ)
        → (wake_loop rest p me chan t).proc q ≡ (
            if leb p q && ltb q (p + rest) && not (points me q)
            then wake chan (t.proc q)
            else t.proc q))
      × ((wake_loop rest p me chan t).nextpid ≡ t.nextpid)
      × ((wake_loop rest p me chan t).initproc ≡ t.initproc)
unfolding wake_loop
wake_loop_lem zero p me chan t = (λ q. ground arith, refl, refl)
wake_loop_lem (suc rest) p me chan t = elim (Bool-cases (points me p)) [
  | inl own ↦
      let (h, n, i) = wake_loop_lem rest (p + 1) me chan t in
      rw (wake_loop, own)
        (
          λ q. elim (ℕ_discrete p q) [
            | yes e ↦ h q ∙ ground (arith, own, ap (points me) e)
            | no ne ↦ h q ∙ ground arith
          ],
          n,
          i,
        )
  | inr other ↦
      let (h, n, i) = wake_loop_lem rest (p + 1) me chan (set_proc p (wake chan (t.proc p)) t) in
      rw (wake_loop, other)
        (
          λ q. elim (ℕ_discrete p q) [
            | yes e ↦
                h q ∙ ground (arith, other, ap (points me) e, ap (λ x. wake chan (t.proc x)) e)
            | no ne ↦ h q ∙ ground arith
          ],
          n,
          i,
        )
]

-- `wakeup` makes every other process that sleeps on the channel runnable, and changes nothing else.
pub wakeup_lem :
    (me : Option ℕ) (chan : ℕ) (t : Table)
    → ((q : ℕ)
        → (wakeup me chan t).proc q ≡ (
            if ltb q nproc
              && not (points me q)
              && is_sleeping (t.proc q).state
              && (t.proc q).chan == chan
            then record (t.proc q) { state = runnable }
            else t.proc q))
      × ((wakeup me chan t).nextpid ≡ t.nextpid)
      × ((wakeup me chan t).initproc ≡ t.initproc)
unfolding wakeup
wakeup_lem me chan t =
    let (h, n, i) = wake_loop_lem nproc 0 me chan t in (λ q. h q ∙ ground arith, n, i)
