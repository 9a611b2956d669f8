-- ===== src/JobStore/Evolution.antt =====
-- How the `jobs` table may change: no job goes away, the columns that identify it stay, and its
-- state moves along allowed transitions only.
use group_assessment_agent.Base.{
  ℕ, zero, suc, ◌+◌, pad4, is_some, Text, ◌==◌, ==_iff, ==_refl, eq_of_==, ◌≡◌, refl, true,
  Bool-cases, Option, none, some, List, [], ◌∷◌, ◌++◌, find, update_where, arith, inl, inr,
  if◌then◌else◌,
}
use group_assessment_agent.Exec.Steps.{Steps, IsPreorder, steps_rules}
use group_assessment_agent.Jobs.{JobState, Operation, Field, Job, may_become, assign_all}
use group_assessment_agent.Jobs.Lifecycle.{
  ◌⟶*◌, here, next, ⟶*_trans, SameIdentity, assign_all_keeps,
}
use group_assessment_agent.World.{World, Action}
use group_assessment_agent.JobStore.{
  has_id, get, count_today, allocate, create_job, update, enter, stamp, set_status, existing,
}

-- What has become of a job `j`: the same job, some transitions later.
pub record Later (j k : Job) : Type 0 where
  pub identity : SameIdentity j k
  pub path : j.status ⟶* k.status

abbrev found_in : List Job → Text → Option Job
found_in jobs job_id = find (has_id job_id) jobs

pub record JobsEvolve (jobs jobs' : List Job) : Type 0 where
  pub at :
      (job_id : Text) (j : Job)
      → found_in jobs job_id ≡ some j
      → (k : Job) × (found_in jobs' job_id ≡ some k) × Later j k

abbrev pub Evolves : World → World → Type 0
Evolves w w' = JobsEvolve w.jobs w'.jobs

SameIdentity-trans : {i j k : Job} → SameIdentity i j → SameIdentity j k → SameIdentity i k
SameIdentity-trans p q = ground arith

Later-refl : (j : Job) → Later j j
Later-refl j = record { identity = ground arith; path = here }

Later-trans : {i j k : Job} → Later i j → Later j k → Later i k
Later-trans p q = record {
  identity = SameIdentity-trans p.identity q.identity;
  path = ⟶*_trans p.path q.path;
}

JobsEvolve-refl : (jobs : List Job) → JobsEvolve jobs jobs
JobsEvolve-refl jobs = record { at = λ job_id j e. (j, e, Later-refl j) }

JobsEvolve-trans : {a b c : List Job} → JobsEvolve a b → JobsEvolve b c → JobsEvolve a c
JobsEvolve-trans p q = record {
  at = λ job_id j e.
      let (k, f, l) = p.at job_id j e in
      let (m, g, l') = q.at job_id k f in (m, g, Later-trans l l');
}

pub Evolves-IsPreorder : IsPreorder Evolves
Evolves-IsPreorder = record {
  refl_at = λ w. JobsEvolve-refl w.jobs;
  trans_at = λ s t u p q. JobsEvolve-trans p q;
}

-- A new row changes no row that can be found.
find-snoc :
    (job_id : Text) (jobs : List Job) (x j : Job)
    → found_in jobs job_id ≡ some j
    → found_in (jobs ++ (x ∷ [])) job_id ≡ some j
find-snoc job_id [] x j h = ground arith
find-snoc job_id (y ∷ ys) x j h = ground (arith, find-snoc job_id ys x j)

pub find-snoc_fresh :
    (job_id : Text) (jobs : List Job) (x : Job)
    → found_in jobs job_id ≡ none
    → x.job_id ≡ job_id
    → found_in (jobs ++ (x ∷ [])) job_id ≡ some x
find-snoc_fresh job_id [] x h e = ground (arith, ==_refl job_id)
find-snoc_fresh job_id (y ∷ ys) x h e = ground (arith, find-snoc_fresh job_id ys x)

abbrev pub changed : (Job → Job) → Option Job → Option Job
changed f none = none
changed f (some j) = some (f j)

-- An update of the rows of one job leaves what is found under other ids.
pub find-update_where :
    (id job_id : Text) (f : Job → Job) (jobs : List Job)
    → ((j : Job) → (f j).job_id ≡ j.job_id)
    → found_in (update_where (has_id id) f jobs) job_id
      ≡ (if id == job_id then changed f (found_in jobs job_id) else found_in jobs job_id)
find-update_where id job_id f [] keeps = ground arith
find-update_where id job_id f (x ∷ xs) keeps = ground (
  arith,
  keeps x,
  find-update_where id job_id f xs keeps,
  ==_iff x.job_id id,
  ==_iff x.job_id job_id,
  ==_iff id job_id,
)

-- The update keeps every job, if it is a later form of each job found under that id.
update_where-JobsEvolve :
    (id : Text) (f : Job → Job) (jobs : List Job)
    → ((j : Job) → (f j).job_id ≡ j.job_id)
    → ((j : Job) → found_in jobs id ≡ some j → Later j (f j))
    → JobsEvolve jobs (update_where (has_id id) f jobs)
update_where-JobsEvolve id f jobs keeps later = record {
  at = λ job_id j e. elim (Bool-cases (id == job_id)) [
    | inl same ↦ (
      f j,
      ground (arith, find-update_where id job_id f jobs keeps),
      later j (ground (arith, eq_of_== id job_id)),
    )
    | inr other ↦ (j, ground (arith, find-update_where id job_id f jobs keeps), Later-refl j)
  ];
}

stamp_keeps :
    (s : JobState) (now : ℕ) (j : Job)
    → SameIdentity j (stamp s now j) × ((stamp s now j).status ≡ j.status)
unfolding stamp
stamp_keeps s now j = ground arith

-- `set_status` writes the new state and the columns that identify the job stay.
pub enter_keeps :
    (new : JobState) (fields : List Field) (now : ℕ) (j : Job)
    → SameIdentity j (enter new fields now j) × ((enter new fields now j).status ≡ new)
unfolding enter
enter_keeps new fields now j = ground (
  arith,
  assign_all_keeps fields j,
  stamp_keeps new now (record (assign_all fields j) { status = new }),
)

pub update-Evolves : (job_id : Text) (fields : List Field) → Steps Evolves (update job_id fields)
unfolding update
update-Evolves job_id fields = record {
  at = λ w.
      update_where-JobsEvolve job_id (assign_all fields) w.jobs
        (λ j. (assign_all_keeps fields j).0.job_id)
        (λ j e. record {
          identity = (assign_all_keeps fields j).0;
          path = rw ((assign_all_keeps fields j).1) here;
        });
}

entered :
    (new : JobState) (fields : List Field) (now : ℕ) (j : Job)
    → may_become j.status new ≡ true
    → Later j (enter new fields now j)
entered new fields now j h = record {
  identity = (enter_keeps new fields now j).0;
  path = rw ((enter_keeps new fields now j).1) (next here h);
}

-- A change of state, refused or not, keeps every job and moves it along an allowed transition.
pub set_status-Evolves :
    (job_id : Text) (new : JobState) (fields : List Field)
    → Steps Evolves (set_status job_id new fields)
unfolding set_status
set_status-Evolves job_id new fields = record { at = λ w. go w (found_in w.jobs job_id) refl }
  where
    go :
        (w : World) (o : Option Job)
        → found_in w.jobs job_id ≡ o
        → Evolves w (set_status job_id new fields w).1
    go w none e = rw (e, set_status) (JobsEvolve-refl w.jobs)
    go w (some j) e = elim (Bool-cases (may_become j.status new)) [
      | inl allowed ↦
          rw (e, set_status, allowed)
            (update_where-JobsEvolve job_id (enter new fields w.now) w.jobs
              (λ k. (enter_keeps new fields w.now k).0.job_id)
              (λ k f. entered new fields w.now k (ground arith)))
      | inr refused ↦ rw (e, set_status, refused) (JobsEvolve-refl w.jobs)
    ]

snoc-JobsEvolve : (jobs : List Job) (x : Job) → JobsEvolve jobs (jobs ++ (x ∷ []))
snoc-JobsEvolve jobs x = record {
  at = λ job_id j e. (j, find-snoc job_id jobs x j e, Later-refl j);
}

pub allocate-Evolves :
    (rounds attempt : ℕ) (prefix : Text) (make : Text → ℕ → Job)
    → Steps Evolves (allocate rounds attempt prefix make)
unfolding allocate
allocate-Evolves zero attempt prefix make = record { at = λ w. JobsEvolve-refl w.jobs }
allocate-Evolves (suc rounds) attempt prefix make = record {
  at = λ w.
      let id = prefix ++ pad4 (count_today prefix w.jobs + 1 + attempt) in
      elim (Bool-cases (is_some (find (has_id id) w.jobs))) [
        | inl taken ↦ rw taken ((allocate-Evolves rounds (attempt + 1) prefix make).at w)
        | inr free ↦ rw free (snoc-JobsEvolve w.jobs (make id w.now))
      ];
}

-- An action that leaves the table alone.
pub quiet : {A : Type 0} {m : Action A} → ((w : World) → (m w).1.jobs ≡ w.jobs) → Steps Evolves m
quiet h = record { at = λ w. rw (h w) (JobsEvolve-refl w.jobs) }

pub ruleset evolution_rules =
    (steps_rules, Evolves-IsPreorder, update-Evolves, set_status-Evolves, allocate-Evolves)

pub existing-Evolves : (o : Option Job) → Steps Evolves (existing o)
unfolding existing
existing-Evolves none = search evolution_rules
existing-Evolves (some j) = search evolution_rules

pub get-Evolves : (job_id : Text) → Steps Evolves (get job_id)
unfolding get
get-Evolves job_id = search evolution_rules

pub create_job-Evolves :
    (sender : Text) (user : ℕ) (message : Text) (operation : Operation) (fields : List Field)
    → Steps Evolves (create_job sender user message operation fields)
unfolding create_job
create_job-Evolves sender user message operation fields =
    search (evolution_rules, existing-Evolves, get-Evolves)
