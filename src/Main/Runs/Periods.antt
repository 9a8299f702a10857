-- ===== src/Main/Runs/Periods.antt =====
-- How many updates a run has staged.
use native.Mathlib.Nat.{
  le-div_iff_mul-le, div-lt_iff_lt-mul, div-add-mod', mod-lt, suc-mod, mod-eq_of_lt, mod_self,
}
use bismark_passive.Prelude.{
  ℕ, suc, ◌+◌, ◌*◌, ◌/◌, ◌%◌, ◌^◌, ◌<◌, ◌≤◌, ◌≡◌, sym, ap, ◌∙◌, false, Bool-cases, inl, inr, List,
  arith, ◌==◌, if◌then◌else◌,
}
use bismark_passive.Prelude.Printf.{Printf, Call}
use bismark_passive.Main.{Build, Libraries, Daemon}
use bismark_passive.Main.Signals.{alarms_per_update}
use bismark_passive.Main.Start.Ready.{start-Consistent}
use bismark_passive.Main.Packets.Keeps.{process_packet-Unchanged}
use bismark_passive.Main.Runs.{Run, started, packet, alarm, Run-Kept, alarm-Kept}

div-between : (n q k : ℕ) → 0 < k → q * k ≤ n → n < q * k + k → n / k ≡ q
div-between n q k positive low high =
    let a : q ≤ n / k = (le-div_iff_mul-le positive).1 low in
    let b : n / k < q + 1 = (div-lt_iff_lt-mul positive).1 (omega arith) in omega arith

mod-next : (n k : ℕ) → (n + 1) % k ≡ (n % k + 1) % k
mod-next n k =
    let e : n + 1 ≡ suc n = omega arith in
    let e' : n % k + 1 ≡ suc (n % k) = omega arith in rw (e, e') (suc-mod n k)

add-mul : (q k : ℕ) → (q + 1) * k ≡ q * k + k
add-mul q k = omega arith

-- One more step fills a period or does not.
div-next : (n k : ℕ) → 0 < k → (n + 1) / k ≡ (if (n + 1) % k == 0 then n / k + 1 else n / k)
div-next n k positive = elim (Bool-cases (n % k + 1 == k)) [
  | inl last ↦
      let e : n % k + 1 ≡ k = ground arith in
      let full : (n + 1) % k ≡ 0 = mod-next n k ∙ ap (λ r. r % k) e ∙ mod_self k in
      let q = n / k in
      let more : (q + 1) * k ≡ q * k + k = add-mul q k in
      rw full (
        div-between (n + 1) (q + 1) k positive (omega (arith, div-add-mod' n k))
          (omega (arith, div-add-mod' n k)))
  | inr inside ↦
      let below : n % k + 1 < k = ground (arith, mod-lt n positive) in
      let rest : (n + 1) % k ≡ n % k + 1 = mod-next n k ∙ mod-eq_of_lt below in
      let positive_rest : ((n + 1) % k == 0) ≡ false = ground arith in
      rw positive_rest (
        div-between (n + 1) (n / k) k positive (omega (arith, div-add-mod' n k))
          (omega (arith, div-add-mod' n k)))
]

module _ (build : Build) (libs : Libraries) {G F : Type 0} (gzprintf : Printf G)
    (fprintf : Printf F) (positive : 0 < alarms_per_update build) where
  -- Behind `n` alarms the program has staged n / ALARMS_PER_UPDATE updates, no matter which packets
  -- came between them, as long as `n` is below 2^32 and ALARMS_PER_UPDATE is not 0.
  pub Run-sequence_number :
      (n : ℕ) (names : List Call) (seconds : ℕ) (d : Daemon)
      → Run build libs gzprintf fprintf n names seconds d
      → n < 2 ^ 32
      → d.sequence_number ≡ n / alarms_per_update build
  Run-sequence_number _ _ _ _ (started inputs d e) fits =
      (start-Consistent build libs inputs d e).number
      ∙ sym (div-between 0 0 (alarms_per_update build) positive (omega arith) (omega arith))
  Run-sequence_number _ _ _ _ (packet n names seconds d₀ d header bytes run readable e) fits =
      let k = Run-Kept build libs gzprintf fprintf n names seconds d₀ run in
      (process_packet-Unchanged build libs header bytes d₀ readable k.consistent d e).number
      ∙ Run-sequence_number n names seconds d₀ run fits
  Run-sequence_number _ _ _ _ (alarm n names seconds seconds' d₀ d system written run e) fits =
      let k = Run-Kept build libs gzprintf fprintf n names seconds d₀ run in
      let f =
        alarm-Kept build libs gzprintf fprintf n names seconds seconds' d₀ d system written k e in
      let counted : (d₀.alarm_count + 1) % 2 ^ 32 ≡ n + 1 = omega (arith, k.alarms) in
      let before = Run-sequence_number n names seconds d₀ run (omega arith) in
      f.number ∙ rw (counted, before) (sym (div-next n (alarms_per_update build) positive))
