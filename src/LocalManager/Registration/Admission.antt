-- ===== src/LocalManager/Registration/Admission.antt =====
-- Which agents the local manager registers.
use fluffi.Base.{
  ◌≡◌, ◌≢◌, ◌⊎◌, inl, inr, refl, Bool, true, false, Option, none, some, Bool-cases, [], ◌∷◌, arith,
  Text, text_eq, text_eq_iff,
}
use fluffi.LocalManager.Registration.{
  Database, Registration, decide_sub_agent_type, admit, is_worker, registers, register_response,
  handle_registration,
}

-- The reasons to register an agent of this location: it is registered already, or a subtype was
-- chosen and the database took it.
abbrev pub Admitted : Database → Registration → Type 0
Admitted db r =
    (db.registered_subtype ≢ [])
    ⊎ ((is_worker r.type ≡ true)
        × ((t : Text) × (decide_sub_agent_type db.settings db.active_subtypes r.type
                r.implemented_subtypes
              ≡ some t)
            × (t ≢ [])
            × (db.writes_instance t ≡ true)))

admit-some :
    (db : Database) (o : Option Text)
    → admit db o ≡ some true
    → (t : Text) × (o ≡ some t) × (t ≢ []) × (db.writes_instance t ≡ true)
unfolding admit
admit-some db none h = ground arith
admit-some db (some []) h = ground arith
admit-some db (some (c ∷ cs)) h = (c ∷ cs, refl, (λ e. ground arith), ground arith)

registers-Admitted :
    (my_location : Text) (db : Database) (r : Registration)
    → registers my_location db r ≡ some true
    → (r.location ≡ my_location) × Admitted db r
unfolding registers
registers-Admitted my_location db r h = elim (Bool-cases (text_eq r.location my_location)) [
  | inr e ↦ ground arith
  | inl e ↦ elim (Bool-cases (text_eq db.registered_subtype [])) [
    | inr new ↦ (
      (text_eq_iff r.location my_location).0 e,
      inl (λ q. ground (arith, (text_eq_iff db.registered_subtype []).1 q)),
    )
    | inl old ↦ elim (Bool-cases (is_worker r.type)) [
      | inr w ↦ ground arith
      | inl w ↦ ((text_eq_iff r.location my_location).0 e, inr (w, admit-some db _ (ground arith)))
    ]
  ]
]

register_response_success :
    (fuzzjob : Text) (job : Option Text) (o : Option Bool)
    → register_response fuzzjob o ≡ some (true, job)
    → (o ≡ some true) × (job ≡ some fuzzjob)
unfolding register_response
register_response_success fuzzjob job none h = ground arith
register_response_success fuzzjob job (some true) h = (refl, ground arith)
register_response_success fuzzjob job (some false) h = ground arith

-- Where the answer says success, it names the fuzz job, the agent is of this location, and it was
-- registered before, or it is a generator, a runner or an evaluator for which a subtype was chosen
-- that the database took.
pub handle_registration-Admitted :
    (my_location fuzzjob : Text) (db : Database) (r : Registration) (job : Option Text)
    → handle_registration my_location fuzzjob db r ≡ some (true, job)
    → (job ≡ some fuzzjob) × (r.location ≡ my_location) × Admitted db r
unfolding handle_registration
handle_registration-Admitted my_location fuzzjob db r job h =
    let (e, j) = register_response_success fuzzjob job (registers my_location db r) h in
    let (l, a) = registers-Admitted my_location db r e in (j, l, a)
