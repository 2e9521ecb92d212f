-- ===== src/GlobalManager/Registration/Race.antt =====
-- Local managers that register at the same time, in threads that share the database.
use fluffi.Base.{
  ◌≡◌, ℕ, suc, Bool, true, false, ◌&&◌, ◌==◌, if◌then◌else◌, Option, List, [], ◌∷◌, Text, text_eq,
}
use fluffi.GlobalManager.Registration.{
  LmConfiguration, GmRegistration, GmResponse, send_to, configure, retry_later, Change, set_lm,
  ServiceDescriptor, GmDatabase, AskWelcome, give_job,
}

-- What a thread does next: the end of a registration that read this job and this configuration some
-- time before, or a change of the database by another thread.
pub data Step : Type 0 where
  gives : GmRegistration → ℕ → Option LmConfiguration → Step
  changes : Change → Step

unfoldable pub is_configured : GmResponse → Bool
is_configured (send_to lm) = false
is_configured (configure c) = true
is_configured retry_later = false

-- The key on location and fuzz job of createGMDB.sql: `taken` says that a row with them is there. It
-- makes the database refuse another; none of the changes removes a row of this table.
pub record UniqueKey {D : Type 0} (db : GmDatabase D) : Type 0 where
  pub taken : D → Text → ℕ → Bool
  pub refuses :
      (d : D) (location : Text) (s : ServiceDescriptor) (job : ℕ)
      → taken d location job ≡ true
      → (db.change (set_lm location s job) d).1 ≡ false
  pub takes :
      (d : D) (location : Text) (s : ServiceDescriptor) (job : ℕ)
      → (db.change (set_lm location s job) d).1 ≡ true
      → taken (db.change (set_lm location s job) d).0 location job ≡ true
  pub keeps :
      (d : D) (location : Text) (job : ℕ) (c : Change)
      → taken d location job ≡ true
      → taken (db.change c d).0 location job ≡ true

module _ {D : Type 0} (db : GmDatabase D) (ask : AskWelcome) (location : Text) (job : ℕ) where
  unfoldable pub is_for : GmRegistration → ℕ → Bool
  is_for r j = text_eq r.location location && j == job

  -- How many local managers of the location are configured for the job.
  unfoldable pub configured_count : List Step → D → ℕ
  unfolding is_configured is_for give_job
  configured_count [] d = 0
  configured_count (changes c ∷ steps) d = configured_count steps (db.change c d).0
  configured_count (gives r j c ∷ steps) d =
      let (d', answer) = give_job db ask r j c d in
      let rest = configured_count steps d' in
      if is_configured answer && is_for r j then suc rest else rest
