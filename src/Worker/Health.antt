-- ===== src/Worker/Health.antt =====
-- The counts of a scope (`operations_health_facts` of src/ephi/infrastructure/postgresql_worker.py).
use ephi.Base.{
  ℕ, ◌+◌, Bool, true, false, ◌&&◌, none, some, List, [], ◌∷◌, leb, if◌then◌else◌, ◌==◌, ℕ_eq,
  list_Eq, option_Eq,
}
use ephi.Base.Text.{Text}
use ephi.Worker.Model.{Time, JobStatus, JobRecord, Db, is_running}

-- `operations_health_facts`: the counts of a scope's jobs.
pub record WorkerHealthFacts : Type 0 where
  pub job_count : ℕ
  pub failed_count : ℕ
  pub dead_letter_count : ℕ
  pub running_count : ℕ
  pub expired_running_count : ℕ
  pub observed_at : Time

unfoldable pub count_if {ℓ} : {A : Type ℓ} → (A → Bool) → List A → ℕ
count_if p [] = 0
count_if p (x ∷ xs) = let n = count_if p xs in if p x then n + 1 else n

abbrev pub is_failed : JobStatus → Bool
is_failed JobStatus.failed = true
is_failed _ = false

abbrev pub is_dead_letter : JobStatus → Bool
is_dead_letter JobStatus.dead_letter = true
is_dead_letter _ = false

unfoldable pub operations_health_facts : {P : Type 0} → Text → Time → Db P → WorkerHealthFacts
operations_health_facts scope_key now db =
    let count =
      λ (p : JobRecord _ → Bool). count_if (λ j. (j.scope_key == scope_key) && p j) db.jobs in
    record {
      job_count = count (λ _. true);
      failed_count = count (λ j. is_failed j.status);
      dead_letter_count = count (λ j. is_dead_letter j.status);
      running_count = count (λ j. is_running j.status);
      expired_running_count = count (λ j.
          is_running j.status && elim j.lease_expires_at [ none ↦ true | some t ↦ leb t now ]);
      observed_at = now;
    }
