-- ===== src/Demo/Laws.antt =====
-- About services/demo-control/src: interleavings of requests and ends of runs.
use inspect_element.Prelude.{
  ℕ, ◌≡◌, refl, ap, ◌∙◌, Bool, true, false, ◌||◌, not, Option, none, some, List, [], ◌∷◌, arith,
  All, is_some, Bool-cases, inl, inr,
}
use inspect_element.Prelude.Texts.{Text, text_eq, text_eq_iff, text_eq_refl, text_eq_sym}
use inspect_element.Prelude.Tables.{any}
use inspect_element.Demo.State.{
  ScenarioName, ScenarioResult, DemoState, RunStatus, running, completed, failed, start_run,
  finish_run,
}
use inspect_element.Demo.Control.{
  OwnerField, Owner, no_owner, owner, refused_owner, Job, Ended, returned, thrown, post_run,
  end_run, error_result, parse_owner_address,
}

-- The store, the runs under way, and the ids given so far.
pub record System : Type 0 where
  pub last : Option DemoState
  pub jobs : List Job
  pub given : List Text

abbrev pub idle : System
idle = record { last = none; jobs = []; given = [] }

-- The second list is the first without one occurrence of the job.
pub data Removed : Job → List Job → List Job → Type 0 where
  here : {j : Job} {js : List Job} → Removed j (j ∷ js) js
  there : {j k : Job} {js ks : List Job} → Removed j js ks → Removed j (k ∷ js) (k ∷ ks)

abbrev with_job : Option Job → List Job → List Job
with_job none js = js
with_job (some j) js = j ∷ js

-- A request under a fresh id, or the end of a run under way.
pub data Step (checksum : Text → Text) : System → System → Type 0 where
  post :
      {s : System} (scenario : ScenarioName) (field : OwnerField) (id : Text) (now : ℕ)
      → All (λ g. text_eq g id ≡ false) s.given
      → Step checksum s (record {
        last = (post_run checksum scenario field id now s.last).last_run;
        jobs = with_job (post_run checksum scenario field id now s.last).accepted s.jobs;
        given = id ∷ s.given;
      })
  finish :
      {s : System} (job : Job) (ended : Ended) (rest : List Job)
      → Removed job s.jobs rest
      → Step checksum s (record s { last = end_run job ended s.last; jobs = rest })

pub data Steps (checksum : Text → Text) : System → System → Type 0 where
  stop : {s : System} → Steps checksum s s
  more : {s t u : System} → Steps checksum s t → Step checksum t u → Steps checksum s u

abbrev is_job : Text → Job → Bool
is_job id j = text_eq j.scenario_id id

abbrev is_running : RunStatus → Bool
is_running running = true
is_running completed = false
is_running failed = false

abbrev Distinct : List Job → Type 0
Distinct [] = Unit
Distinct (j ∷ js) = (any (is_job j.scenario_id) js ≡ false) × Distinct js

-- The run that is shown is `running` exactly while its job is under way, and has its result after.
abbrev pub Shows : Option DemoState → List Job → Type 0
Shows none js = js ≡ []
Shows (some d) js =
    (is_running d.status ≡ any (is_job d.scenario_id) js)
    × (is_some d.result ≡ not (any (is_job d.scenario_id) js))

pub record IsConsistent (s : System) : Type 0 where
  pub distinct : Distinct s.jobs
  pub known : All (λ j. any (text_eq j.scenario_id) s.given ≡ true) s.jobs
  pub shows : Shows s.last s.jobs

Removed-apart :
    {j : Job} {js ks : List Job} (id : Text)
    → Removed j js ks
    → any (is_job id) js ≡ false
    → (text_eq j.scenario_id id ≡ false) × (any (is_job id) ks ≡ false)
unfolding any
Removed-apart id (here {j = j} {js = js}) h = ground arith
Removed-apart id (there {j = j} {k = k} {js = js} {ks = ks} r) h =
    ground (arith, Removed-apart id r)

Removed-own :
    {j : Job} {js ks : List Job}
    → Removed j js ks
    → Distinct js
    → (any (is_job j.scenario_id) js ≡ true) × (any (is_job j.scenario_id) ks ≡ false) × Distinct ks
unfolding any
Removed-own (here {j = j} {js = js}) d = (rw (text_eq_refl j.scenario_id) refl, d.0, d.1)
Removed-own (there {j = j} {k = k} {js = js} {ks = ks} r) d =
    let (apart, gone) = Removed-apart k.scenario_id r d.0 in
    let (was, left, distinct) = Removed-own r d.1 in
    let ne : text_eq k.scenario_id j.scenario_id ≡ false =
      text_eq_sym k.scenario_id j.scenario_id ∙ apart in
    (rw ne was, rw ne left, (gone, distinct))

Removed-other :
    {j : Job} {js ks : List Job} (id : Text)
    → Removed j js ks
    → text_eq j.scenario_id id ≡ false
    → any (is_job id) js ≡ any (is_job id) ks
unfolding any
Removed-other id here ne = rw ne refl
Removed-other id (there {k = k} r) ne =
    ap (λ b. text_eq k.scenario_id id || b) (Removed-other id r ne)

Removed-All :
    (P : Job → Type 0) {j : Job} {js ks : List Job} → Removed j js ks → All P js → All P ks
Removed-All P here all = all.1
Removed-All P (there r) all = (all.0, Removed-All P r all.1)

known_later :
    (id : Text) (given : List Text) (js : List Job)
    → All (λ j. any (text_eq j.scenario_id) given ≡ true) js
    → All (λ j. any (text_eq j.scenario_id) (id ∷ given) ≡ true) js
unfolding any
known_later id given [] all = tt
known_later id given (j ∷ js) all = (ground (arith, all.0), known_later id given js all.1)

-- A fresh id is no id of a known job.
fresh_id :
    (id known : Text) (given : List Text)
    → All (λ g. text_eq g id ≡ false) given
    → any (text_eq known) given ≡ true
    → text_eq known id ≡ false
unfolding any
fresh_id id known [] all h = cc
fresh_id id known (g ∷ given) all h =
    ground (arith, fresh_id id known given all.1, text_eq_iff known g, all.0)

fresh_job :
    (id : Text) (given : List Text) (js : List Job)
    → All (λ g. text_eq g id ≡ false) given
    → All (λ j. any (text_eq j.scenario_id) given ≡ true) js
    → any (is_job id) js ≡ false
unfolding any
fresh_job id given [] fresh all = refl
fresh_job id given (j ∷ js) fresh all =
    ground (arith, fresh_id id j.scenario_id given fresh all.0, fresh_job id given js fresh all.1)

finish_run-Shows :
    {job : Job} {js rest : List Job} (last : Option DemoState) (status : RunStatus)
    (result : ScenarioResult)
    → is_running status ≡ false
    → Removed job js rest
    → Distinct js
    → Shows last js
    → Shows (finish_run job.scenario_id status result last) rest
unfolding finish_run any
finish_run-Shows none status result over r d e = absurd (cc ((Removed-own r d).0, e))
finish_run-Shows {job} {js} {rest} (some run) status result over r d (runs, has) =
    elim (Bool-cases (text_eq run.scenario_id job.scenario_id)) [
      | inl own ↦ rw own (
          let same : run.scenario_id ≡ job.scenario_id = (text_eq_iff _ _).0 own in
          rw same (rw (Removed-own r d).1 (over, refl)))
      | inr other ↦ rw other (
          let kept =
            Removed-other run.scenario_id r (text_eq_sym job.scenario_id run.scenario_id ∙ other) in
          (runs ∙ kept, has ∙ ap not kept))
    ]

post-IsConsistent :
    (checksum : Text → Text) (s : System) (scenario : ScenarioName) (field : OwnerField) (id : Text)
    (now : ℕ)
    → All (λ g. text_eq g id ≡ false) s.given
    → IsConsistent s
    → (o : Owner) → parse_owner_address checksum field ≡ o
    → IsConsistent (record {
      last = (post_run checksum scenario field id now s.last).last_run;
      jobs = with_job (post_run checksum scenario field id now s.last).accepted s.jobs;
      given = id ∷ s.given;
    })
unfolding post_run start_run any
post-IsConsistent checksum s scenario field id now fresh c refused_owner h =
    rw (h, post_run)
      (record {
        distinct = c.distinct;
        known = known_later id s.given s.jobs c.known;
        shows = c.shows;
      })
post-IsConsistent checksum s scenario field id now fresh c no_owner h =
    rw (h, post_run)
      (record {
        distinct = (fresh_job id s.given s.jobs fresh c.known, c.distinct);
        known = (rw (text_eq_refl id) refl, known_later id s.given s.jobs c.known);
        shows = (rw (text_eq_refl id) refl, rw (text_eq_refl id) refl);
      })
post-IsConsistent checksum s scenario field id now fresh c (owner a) h =
    rw (h, post_run)
      (record {
        distinct = (fresh_job id s.given s.jobs fresh c.known, c.distinct);
        known = (rw (text_eq_refl id) refl, known_later id s.given s.jobs c.known);
        shows = (rw (text_eq_refl id) refl, rw (text_eq_refl id) refl);
      })

Step-IsConsistent :
    (checksum : Text → Text) {s t : System} → Step checksum s t → IsConsistent s → IsConsistent t
unfolding end_run
Step-IsConsistent checksum (post {s = s} scenario field id now fresh) c =
    post-IsConsistent checksum s scenario field id now fresh c _ refl
Step-IsConsistent checksum (finish {s = s} job (returned result) rest r) c = record {
  distinct = (Removed-own r c.distinct).2;
  known = Removed-All _ r c.known;
  shows = finish_run-Shows s.last completed result refl r c.distinct c.shows;
}
Step-IsConsistent checksum (finish {s = s} job (thrown message) rest r) c = record {
  distinct = (Removed-own r c.distinct).2;
  known = Removed-All _ r c.known;
  shows =
      finish_run-Shows s.last failed (error_result job.scenario message) refl r c.distinct c.shows;
}

Steps-IsConsistent : (checksum : Text → Text) {t : System} → Steps checksum idle t → IsConsistent t
Steps-IsConsistent checksum stop = record { distinct = tt; known = tt; shows = refl }
Steps-IsConsistent checksum (more before last) =
    Step-IsConsistent checksum last (Steps-IsConsistent checksum before)

-- However requests, each under a fresh id, and ends of runs follow each other, the run that the store
-- shows is `running` exactly while its own job is under way, and has a result exactly when it is not:
-- the end of an earlier run never shows as the end of this one. Before any run no job is under way.
pub last_run-Shows :
    (checksum : Text → Text) {t : System} → Steps checksum idle t → Shows t.last t.jobs
last_run-Shows checksum steps = (Steps-IsConsistent checksum steps).shows
