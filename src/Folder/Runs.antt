-- ===== src/Folder/Runs.antt =====
-- Actions that succeed: what holds before, and after their result.
use foldervault.Base.{◌≡◌, refl, Bool, false, Option, none, some, Text}
use foldervault.Vault.{Result, ok, err}
use foldervault.Journal.{Item, a_folder, Tree, Disk, put, guard_path}
use foldervault.Journal.Safety.{put-same}
use foldervault.Folder.{
  Moment, World, Records, Os, OsCall, Action, follow, after_error, ◌>>=◌, ◌>>◌, see, change, note,
  reach, lift, ask, when, attempt, or_else, delete_folder, delete_folder_item, send_away, send_item,
  rename, rename_item, rename_staging, remove_copy, guard,
}
use foldervault.Folder.Calls.{IsStable}

unfoldable pub Runs : {A : Type 0} → (Moment → Type 0) → Action A → (A → Moment → Type 0) → Type 0
Runs {A = A} pre m post = (w : World) → pre w.now → (a : A) × ((m w).0 ≡ ok a) × post a (m w).1.now

module _ {A : Type 0} (pre : Moment → Type 0) (m : Action A) where
  pub bind-Runs :
      {B : Type 0} (middle : A → Moment → Type 0) (f : A → Action B) (post : B → Moment → Type 0)
      → Runs pre m middle
      → ((a : A) → Runs (middle a) (f a) post)
      → Runs pre (m >>= f) post
  unfolding Runs
  bind-Runs {B = B} middle f post first next w start =
      let (a, returned, after) = first w start in go (m w) a returned after
    where
      go :
          (r : Result A × World) (a : A)
          → r.0 ≡ ok a
          → middle a r.1.now
          → (b : B) × ((follow f r).0 ≡ ok b) × post b (follow f r).1.now
      go (ok a', w') a same h = let e : a ≡ a' = cc in next a' w' (rw e at h)
      go (err e, w') a same h = absurd cc

  pub given-Runs :
      (Q : Type 0) (post : A → Moment → Type 0)
      → (Q → Runs pre m post)
      → Runs (λ n. pre n × Q) m post
  unfolding Runs
  given-Runs Q post runs w start = runs start.1 w start.0

  pub or_else-Runs :
      (cleanup : Action (Unit {0})) (post : A → Moment → Type 0)
      → Runs pre m post
      → Runs pre (or_else m cleanup) post
  unfolding Runs
  or_else-Runs cleanup post runs w start =
      let (a, returned, after) = runs w start in go (m w) a returned after
    where
      go :
          (r : Result A × World) (a : A)
          → r.0 ≡ ok a
          → post a r.1.now
          → (a : A) × ((after_error cleanup r).0 ≡ ok a) × post a (after_error cleanup r).1.now
      go (ok a', w') a same h = (a, same, h)
      go (err e, w') a same h = absurd cc

module _ (pre : Moment → Type 0) where
  pub attempt-Runs :
      (m : Action (Unit {0})) (post : Moment → Type 0)
      → Runs pre m (λ u. post)
      → Runs pre (attempt m) (λ u. post)
  unfolding Runs
  attempt-Runs m post runs w start = let (u, returned, after) = runs w start in (tt, refl, after)

  pub lift-Runs : {A : Type 0} (a : A) → Runs pre (lift (ok a)) (λ b n. pre n × (b ≡ a))
  unfolding Runs
  lift-Runs a w start = (a, refl, (start, refl))

  pub pure-Runs :
      {A : Type 0} (a : A) (post : A → Moment → Type 0)
      → ((n : Moment) → pre n → post a n)
      → Runs pre (lift (ok a)) post
  unfolding Runs
  pure-Runs a post after w start = (a, refl, after w.now start)

  pub skip-Runs : (b : Bool) (m : Action (Unit {0})) → b ≡ false → Runs pre (when b m) (λ u. pre)
  skip-Runs b m h = rw h (pure-Runs tt (λ u. pre) (λ n g. g))

  pub see-Runs :
      {A : Type 0} (f : Disk → A) (a : A)
      → ((n : Moment) → pre n → f n.disk ≡ a)
      → Runs pre (see f) (λ b n. pre n × (b ≡ a))
  unfolding Runs
  see-Runs f a seen w start = (f w.now.disk, refl, (start, seen w.now start))

  pub change-Runs :
      (f : Disk → Disk) (post : Moment → Type 0)
      → ((n : Moment) → pre n → post (record n { disk = f n.disk }))
      → Runs pre (change f) (λ u. post)
  unfolding change reach Runs
  change-Runs f post after w start = (tt, refl, after w.now start)

  pub note-Runs :
      (f : Records → Records) (post : Moment → Type 0)
      → ((n : Moment) → pre n → post (record n { records = f n.records }))
      → Runs pre (note f) (λ u. post)
  unfolding note reach Runs
  note-Runs f post after w start = (tt, refl, after w.now start)

-- From more, to less.
pub weaken-Runs :
    {A : Type 0} (pre pre' : Moment → Type 0) (m : Action A) (post post' : A → Moment → Type 0)
    → ((n : Moment) → pre' n → pre n)
    → ((a : A) (n : Moment) → post a n → post' a n)
    → Runs pre m post
    → Runs pre' m post'
unfolding Runs
weaken-Runs pre pre' m post post' before later runs w start =
    let (a, returned, after) = runs w (before w.now start) in
    (a, returned, later a (m w).1.now after)

module _ (os : Os) (willing : (c : OsCall) → os.refuses c ≡ none) where
  pub ask-Runs : (pre : Moment → Type 0) (c : OsCall) → Runs pre (ask os c) (λ u. pre)
  unfolding ask Runs
  ask-Runs pre c w start = rw willing (tt, refl, start)

  ask-put-Runs :
      (I : Moment → Type 0) (c : OsCall) (p : Text)
      → IsStable I p
      → Runs I (ask os c >> change (put p none)) (λ u m. I m × (m.disk p ≡ none))
  ask-put-Runs I c p stable =
      bind-Runs I (ask os c) (λ u. I) _ _ (ask-Runs I c)
        (λ u. change-Runs I (put p none) _ (λ m h. (stable m none h, put-same p none m.disk)))

  module _ (I : Moment → Type 0) (p : Text) (stable : IsStable I p) (i : Item) where
    abbrev Full : Moment → Type 0
    Full m = I m × (m.disk p ≡ some i)

    abbrev Gone : Moment → Type 0
    Gone m = I m × (m.disk p ≡ none)

    seen-Runs :
        (f : Option Item → Action (Unit {0}))
        → Runs I (f (some i)) (λ u. Gone)
        → Runs Full (see (λ disk. disk p) >>= f) (λ u. Gone)
    unfolding Runs
    seen-Runs f runs w start = rw start.1 (runs w start.0)

    pub send_away-Runs : Runs Full (send_away os p) (λ u. Gone)
    unfolding send_away send_item
    send_away-Runs = seen-Runs (send_item os p) (ask-put-Runs I remove_copy p stable)

  pub delete_folder-Runs :
      (I : Moment → Type 0) (p : Text) (stable : IsStable I p) (t : Tree) (c : OsCall)
      → Runs
          (Full I p stable (a_folder t))
          (delete_folder os c p)
          (λ u. Gone I p stable (a_folder t))
  unfolding delete_folder delete_folder_item
  delete_folder-Runs I p stable t c =
      seen-Runs I p stable (a_folder t) (delete_folder_item os c p) (
        bind-Runs I (change (put p (some (a_folder (os.half t))))) (λ u. I) _ _
          (change-Runs I (put p (some (a_folder (os.half t)))) I (λ n h. stable n _ h))
          (λ u. ask-put-Runs I c p stable))

  pub rename-Runs :
      (pre post : Moment → Type 0) (from to : Text) (i : Item)
      → ((m : Moment) → pre m → m.disk from ≡ some i)
      → ((m : Moment) → pre m → post (record m { disk = put to (some i) (put from none m.disk) }))
      → Runs pre (rename os from to) (λ u. post)
  unfolding rename rename_item
  rename-Runs pre post from to i there moved =
      bind-Runs pre (see (λ disk. disk from)) (λ x m. pre m × (x ≡ some i)) _ _
        (see-Runs pre (λ disk. disk from) (some i) there)
        (λ x.
          given-Runs pre (rename_item os from to x) (x ≡ some i) (λ u. post)
            (λ same.
              rw (same, rename_item)
                (bind-Runs pre (ask os rename_staging) (λ u. pre) _ _ (ask-Runs pre rename_staging)
                  (λ u. change-Runs pre _ post moved))))

  pub guard-Runs :
      (pre post : Moment → Type 0) (c : OsCall) (p : Text) (flag : Bool)
      → ((m : Moment) → pre m → post (record m { disk = guard_path p flag m.disk }))
      → Runs pre (guard os c p flag) (λ u. post)
  unfolding guard
  guard-Runs pre post c p flag after =
      bind-Runs pre (ask os c) (λ u. pre) _ _ (ask-Runs pre c)
        (λ u. change-Runs pre (guard_path p flag) post after)
