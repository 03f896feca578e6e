-- ===== src/Folder/Triple.antt =====
-- Triples over actions: what holds before, after a result, and after an error, while every moment
-- that is passed is safe.
use foldervault.Base.{◌≡◌, refl, Bool, true, false, All, Option-cases, inl, inr}
use foldervault.Vault.{Result, ok, err}
use foldervault.Journal.{Disk}
use foldervault.Folder.{
  Moment, World, Os, Action, Records, OsCall, ask, reach, change, note, see, lift, attempt, when,
  or_else, follow, after_error, ◌>>=◌,
}

abbrev pub After :
    {A : Type 0} → (A → Moment → Type 0) → (Moment → Type 0) → Result A → Moment → Type 0
After post failing (ok a) m = post a m
After post failing (err e) m = failing m

abbrev pub Anything : Moment → Type 0
Anything m = Unit {0}

module _ (Safe : Moment → Type 0) where
  unfoldable pub Does :
      {A : Type 0}
      → (Moment → Type 0)
      → Action A
      → (A → Moment → Type 0)
      → (Moment → Type 0)
      → Type 0
  Does pre m post failing =
      (w : World)
      → All Safe w.passed
      → pre w.now
      → All Safe (m w).1.passed × After post failing (m w).0 (m w).1.now

  -- A predicate that an action keeps, whatever its result.
  abbrev pub Keeps : {A : Type 0} → (Moment → Type 0) → Action A → Type 0
  Keeps I m = Does I m (λ a. I) I

  module _ {A : Type 0} (pre : Moment → Type 0) (m : Action A) (failing : Moment → Type 0) where
    pub bind-Does :
        {B : Type 0} (middle : A → Moment → Type 0) (f : A → Action B) (post : B → Moment → Type 0)
        → Does pre m middle failing
        → ((a : A) → Does (middle a) (f a) post failing)
        → Does pre (m >>= f) post failing
    unfolding Does
    bind-Does middle f post first next w safe start = go (m w) (first w safe start)
      where
        go :
            (r : Result A × World)
            → All Safe r.1.passed × After middle failing r.0 r.1.now
            → All Safe (follow f r).1.passed × After post failing (follow f r).0 (follow f r).1.now
        go (ok a, w') (passed, after) = next a w' passed after
        go (err e, w') h = h

    pub attempt-Does :
        (post : Moment → Type 0)
        → Does pre m (λ a. post) post
        → Does pre (attempt m) (λ u. post) failing
    unfolding Does
    attempt-Does post kept w safe start = go (m w) (kept w safe start)
      where
        go :
            (r : Result A × World)
            → All Safe r.1.passed × After (λ a. post) post r.0 r.1.now
            → All Safe r.1.passed × post r.1.now
        go (ok a, w') h = h
        go (err e, w') h = h

    pub or_else-Does :
        (post : A → Moment → Type 0) (failed : Moment → Type 0) (cleanup : Action (Unit {0}))
        → Does pre m post failed
        → Does failed cleanup (λ u. failing) failing
        → Does pre (or_else m cleanup) post failing
    unfolding Does
    or_else-Does post failed cleanup first second w safe start = go (m w) (first w safe start)
      where
        cleaned :
            (r : Result (Unit {0}) × World)
            → All Safe r.1.passed × After (λ u. failing) failing r.0 r.1.now
            → All Safe r.1.passed × failing r.1.now
        cleaned (ok a, w') h = h
        cleaned (err e, w') h = h

        go :
            (r : Result A × World)
            → All Safe r.1.passed × After post failed r.0 r.1.now
            → All Safe (after_error cleanup r).1.passed
              × After post failing (after_error cleanup r).0 (after_error cleanup r).1.now
        go (ok a, w') h = h
        go (err e, w') (passed, after) = cleaned (cleanup w') (second w' passed after)

  module _ (pre failing : Moment → Type 0) where
    pub change-Does :
        (f : Disk → Disk) (post : Moment → Type 0)
        → ((m : Moment) → pre m → Safe (record m { disk = f m.disk }))
        → ((m : Moment) → pre m → post (record m { disk = f m.disk }))
        → Does pre (change f) (λ u. post) failing
    unfolding change reach Does
    change-Does f post safe after w passed start = ((safe w.now start, passed), after w.now start)

    pub note-Does :
        (f : Records → Records) (post : Moment → Type 0)
        → ((m : Moment) → pre m → Safe (record m { records = f m.records }))
        → ((m : Moment) → pre m → post (record m { records = f m.records }))
        → Does pre (note f) (λ u. post) failing
    unfolding note reach Does
    note-Does f post safe after w passed start = ((safe w.now start, passed), after w.now start)

    pub lift-Does :
        {A : Type 0} (r : Result A) (post : A → Moment → Type 0)
        → ((m : Moment) → pre m → After post failing r m)
        → Does pre (lift r) post failing
    unfolding Does
    lift-Does r post after w passed start = (passed, after w.now start)

    pub result-Does :
        {A : Type 0} (r : Result A)
        → ((m : Moment) → pre m → failing m)
        → Does pre (lift r) (λ a m. pre m × (r ≡ ok a)) failing
    unfolding Does
    result-Does (ok a) lost w passed start = (passed, (start, refl))
    result-Does (err e) lost w passed start = (passed, lost w.now start)

    pub see-Does :
        {A : Type 0} (f : Disk → A) (post : A → Moment → Type 0)
        → ((m : Moment) → pre m → post (f m.disk) m)
        → Does pre (see f) post failing
    unfolding Does
    see-Does f post after w passed start = (passed, after w.now start)

    pub ask-Does :
        (os : Os) (c : OsCall)
        → ((m : Moment) → pre m → failing m)
        → Does pre (ask os c) (λ u. pre) failing
    unfolding ask Does
    ask-Does os c after w passed start = elim (Option-cases (os.refuses c)) [
      | inl allowed ↦ rw allowed (passed, start)
      | inr (e, refused) ↦ rw refused (passed, after w.now start)
    ]

  -- The same action from more, with less to say.
  pub weaken-Does :
      {A : Type 0} (pre pre' failing failing' : Moment → Type 0) (m : Action A)
      (post post' : A → Moment → Type 0)
      → ((m : Moment) → pre' m → pre m)
      → ((a : A) (m : Moment) → post a m → post' a m)
      → ((m : Moment) → failing m → failing' m)
      → Does pre m post failing
      → Does pre' m post' failing'
  unfolding Does
  weaken-Does pre pre' failing failing' m post post' before later lost done w safe start =
      let (passed, after) = done w safe (before w.now start) in
      (passed, go (m w).0 (m w).1.now after)
    where
      go : (r : Result _) (n : Moment) → After post failing r n → After post' failing' r n
      go (ok a) n h = later a n h
      go (err e) n h = lost n h

  -- With nothing to say after an error.
  pub forget-Does :
      {A : Type 0} (pre failing : Moment → Type 0) (m : Action A) (post : A → Moment → Type 0)
      → Does pre m post failing
      → Does pre m post Anything
  forget-Does pre failing m post done =
      weaken-Does pre pre failing Anything m post post (λ n h. h) (λ a n h. h) (λ n h. tt) done

  -- What does not speak of the moment is a hypothesis.
  pub given-Does :
      {A : Type 0} (pre failing : Moment → Type 0) (Q : Type 0) (m : Action A)
      (post : A → Moment → Type 0)
      → (Q → Does pre m post failing)
      → Does (λ n. pre n × Q) m post failing
  unfolding Does
  given-Does pre failing Q m post done w safe start = done start.1 w safe start.0

  pub when-Keeps :
      (I : Moment → Type 0) (b : Bool) (m : Action (Unit {0})) → Keeps I m → Keeps I (when b m)
  unfolding Does
  when-Keeps I true m kept w safe start = kept w safe start
  when-Keeps I false m kept w safe start = (safe, start)
