-- ===== src/Exports/Purges.antt =====
-- The scheduled purge of app/services/export_service.py.
use third_party_vendor_risk.Base.{
  ℕ, ◌≡◌, refl, String, Bool, false, ◌&&◌, none, some, ◌==◌, nat_eq, string_eq, count_if, arith,
  update_if, any,
}
use third_party_vendor_risk.Exports.{
  ExportJob, Exports, Settings, purge, is_deleted, is_stuck, key_of, failed, expired, timed_out,
}
use third_party_vendor_risk.Base.{
  count_if-update_le, count_if-update_none, update_if-none, remove_if-none, any-none,
}

module _ (deletes : String → Bool) (settings : Settings) (now : ℕ) where
  -- No file that can be deleted is left for a job past retention, and no job is stuck.
  purge-clean :
      (s : Exports)
      → (count_if (is_deleted deletes now) (purge deletes settings now s).1.jobs ≡ 0)
        × (count_if (is_stuck deletes settings now) (purge deletes settings now s).1.jobs ≡ 0)
  unfolding purge
  purge-clean s =
      let expire = λ (j : ExportJob).
        (let k : ExportJob = record j { status = expired; object_key = none } in k) in
      let fail = λ (j : ExportJob).
        (let k : ExportJob = record j {
          status = failed;
          error = some timed_out;
          completed_at = some now;
        } in
          k) in
      let kept = update_if (is_deleted deletes now) expire s.jobs in
      let deleted =
        count_if-update_none (is_deleted deletes now) (is_deleted deletes now) expire s.jobs
          (λ j hit. refl) (λ j miss. miss) in
      let still =
        count_if-update_le (is_deleted deletes now) (is_stuck deletes settings now) fail kept
          (λ j hit due. absurd (cc)) in
      let unstuck =
        count_if-update_none (is_stuck deletes settings now) (is_stuck deletes settings now) fail
          kept (λ j hit. refl) (λ j miss. miss) in
      (omega (arith, deleted, still), unstuck)

  -- A purge with nothing to do.
  purge-idle :
      (s : Exports)
      → count_if (is_deleted deletes now) s.jobs ≡ 0
      → count_if (is_stuck deletes settings now) s.jobs ≡ 0
      → purge deletes settings now s ≡ ((0, 0), s)
  unfolding purge
  purge-idle s clean unstuck =
      let expire = λ (j : ExportJob).
        (let k : ExportJob = record j { status = expired; object_key = none } in k) in
      let fail = λ (j : ExportJob).
        (let k : ExportJob = record j {
          status = failed;
          error = some timed_out;
          completed_at = some now;
        } in
          k) in
      let same = update_if-none (is_deleted deletes now) expire s.jobs clean in
      let same_again = update_if-none (is_stuck deletes settings now) fail s.jobs unstuck in
      let files =
        remove_if-none
          (λ key.
            any
              (λ j.
                is_deleted deletes now j && elim (key_of j) [ none ↦ false | some k ↦ k == key ])
              s.jobs)
          s.files
          (λ key.
            any-none (is_deleted deletes now)
              (λ j. elim (key_of j) [ none ↦ false | some k ↦ k == key ]) s.jobs clean) in
      rw (same, same_again, files, clean, unstuck) refl

-- A purge leaves nothing to purge: whatever deletions fail, a second purge at the same time, with
-- the same deletions failing, expires no job, fails no job and changes neither rows nor files.
pub purge_twice :
    (deletes : String → Bool) (settings : Settings) (now : ℕ) (s : Exports)
    → purge deletes settings now (purge deletes settings now s).1
      ≡ ((0, 0), (purge deletes settings now s).1)
purge_twice deletes settings now s =
    let clean = purge-clean deletes settings now s in
    purge-idle deletes settings now (purge deletes settings now s).1 clean.0 clean.1
