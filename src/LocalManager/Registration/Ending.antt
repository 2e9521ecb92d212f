-- ===== src/LocalManager/Registration/Ending.antt =====
-- Where a registration ends the process.
use fluffi.Base.{◌≡◌, ◌≢◌, ◌⊎◌, true, none, some, [], Text, pos}
use fluffi.LocalManager.Registration.{
  Shares, AgentType, Database, Registration, sum_of, desired_subtypes, is_worker,
}
use fluffi.Generator.Cleaner.{Settings}

-- Shares that cannot be made percentages.
abbrev pub SumsToZero : Shares → Type 0
SumsToZero shares = (shares ≢ []) × (sum_of shares ≡ pos 0)

-- A share in the setting is no number, or the wanted shares add up to zero, or there are some and
-- those of the active agents add up to zero.
abbrev pub EndsDecision : Settings → Shares → AgentType → Type 0
EndsDecision settings active type =
    (desired_subtypes type settings ≡ none)
    ⊎ ((shares : Shares) × (desired_subtypes type settings ≡ some shares)
        × (shares ≢ [])
        × (SumsToZero shares ⊎ SumsToZero active))

-- What a registration that ends the process is.
abbrev pub EndsProcess : Text → Database → Registration → Type 0
EndsProcess my_location db r =
    (r.location ≡ my_location)
    × (db.registered_subtype ≡ [])
    × (is_worker r.type ≡ true)
    × EndsDecision db.settings db.active_subtypes r.type
