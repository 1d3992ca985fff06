-- ===== src/Health/AlarmLaws.antt =====
-- When the backups that are listed for a database count as recent, and what the status makes of it.
use homelab_db_provisioner.Prelude.{
  ◌≡◌, refl, sym, ◌∙◌, subst, ◌⊎◌, inl, inr, ℕ, ◌≤◌, ◌<◌, Bool, true, false, Bool-cases, Option,
  none, some, List, [], ◌∷◌, ◌++◌, Text, txt, text_eq, trim_prefix, ltb, All, ℤ, pos, negsuc,
  length, take, Result, ok, err, arith, if◌then◌else◌,
}
use homelab_db_provisioner.Prelude.Sort.{sort, TextLe, text_leb, All-sort, length-sort}
use homelab_db_provisioner.Config.{BackupConfig}
use homelab_db_provisioner.World.{Env, Err}
use homelab_db_provisioner.S3.Keys.{last_or_empty, newest_key}
use homelab_db_provisioner.S3.KeysLaws.{newest_key-IsGreatest}
use homelab_db_provisioner.Health.{
  DbHealth, no_backup, is_over, state_of_age, health_of_file, health_of_files,
}
use homelab_db_provisioner.Health.WarnLaws.{is_alarming}

-- The text is in the list.
abbrev pub IsIn : Text → List Text → Type 0
IsIn f [] = ⊥
IsIn f (g ∷ gs) = (g ≡ f) ⊎ IsIn f gs

text_leb_antisym : (s t : Text) → text_leb s t ≡ true → text_leb t s ≡ true → s ≡ t
unfolding text_leb
text_leb_antisym [] [] h k = refl
text_leb_antisym [] (d ∷ t) h k = cc
text_leb_antisym (c ∷ s) [] h k = cc
text_leb_antisym (c ∷ s) (d ∷ t) h k = ground (arith, text_leb_antisym s t)

IsIn-All : (P : Text → Type 0) (f : Text) (fs : List Text) → All P fs → IsIn f fs → P f
IsIn-All P f [] a i = absurd i
IsIn-All P f (g ∷ gs) a (inl e) = subst P e a.0
IsIn-All P f (g ∷ gs) a (inr i) = IsIn-All P f gs a.1 i

All-of : (P : Text → Type 0) → ((f : Text) → P f) → (fs : List Text) → All P fs
All-of P h [] = tt
All-of P h (f ∷ fs) = (h f, All-of P h fs)

All-weaken :
    (P Q : Text → Type 0) → ((f : Text) → P f → Q f) → (fs : List Text) → All P fs → All Q fs
All-weaken P Q h [] a = tt
All-weaken P Q h (f ∷ fs) a = (h f a.0, All-weaken P Q h fs a.1)

All-IsIn : (fs : List Text) → All (λ f. IsIn f fs) fs
All-IsIn [] = tt
All-IsIn (f ∷ fs) =
    (inl refl, All-weaken (λ g. IsIn g fs) (λ g. IsIn g (f ∷ fs)) (λ g i. inr i) fs (All-IsIn fs))

last-All :
    (P : Text → Type 0) (f : Text) (fs : List Text) → All P (f ∷ fs) → P (last_or_empty (f ∷ fs))
unfolding last_or_empty
last-All P f [] a = a.0
last-All P f (g ∷ gs) a = last-All P g gs a.1

last-All_nonempty :
    (P : Text → Type 0) (fs : List Text) → 0 < length fs → All P fs → P (last_or_empty fs)
last-All_nonempty P [] h a = absurd (omega arith)
last-All_nonempty P (f ∷ fs) h a = last-All P f fs a

-- The last of the sorted files is one of them.
newest-IsIn : (f : Text) (fs : List Text) → IsIn (last_or_empty (sort (f ∷ fs))) (f ∷ fs)
newest-IsIn f fs =
    last-All_nonempty (λ g. IsIn g (f ∷ fs)) (sort (f ∷ fs)) (omega (arith, length-sort (f ∷ fs)))
      (All-sort (λ g. IsIn g (f ∷ fs)) (f ∷ fs) (All-IsIn (f ∷ fs)))

newest-greatest : (fs : List Text) → All (λ g. TextLe g (last_or_empty (sort fs))) fs
newest-greatest fs = unfold newest_key in newest_key-IsGreatest fs

-- The number of days after which a backup is late: it runs each night, or each week.
abbrev pub allowed : BackupConfig → ℕ
allowed b = if text_eq b.schedule (txt "weekly") then 7 else 1

-- At most so many days ago; a date in the future is no days ago.
abbrev pub IsWithin : ℕ → ℤ → Type 0
IsWithin limit (pos days) = days ≤ limit
IsWithin limit (negsuc n) = Unit {0}

IsWithin-is_over : (limit : ℕ) (days : ℤ) → is_over limit days ≡ false → IsWithin limit days
IsWithin-is_over limit (pos n) h = ground arith
IsWithin-is_over limit (negsuc n) h = tt

is_over-IsWithin : (limit : ℕ) (days : ℤ) → IsWithin limit days → is_over limit days ≡ false
is_over-IsWithin limit (pos n) h = ground arith
is_over-IsWithin limit (negsuc n) h = refl

module _ (env : Env) (days_since : Text → Option ℤ) where
  -- What follows the database and the underscore in the name of a file.
  abbrev pub stamp : Text → Text → Text
  stamp database file = trim_prefix (database ++ txt "_") (env.base_path file)

  -- The file whose path is the greatest has a date that is not too long ago.
  pub record IsRecent (database : Text) (limit : ℕ) (files : List Text) : Type 0 where
    pub newest : Text
    pub days : ℤ
    pub listed : IsIn newest files
    pub greatest : All (λ f. TextLe f newest) files
    pub long : 10 ≤ length (stamp database newest)
    pub dated : days_since (take 10 (stamp database newest)) ≡ some days
    pub within : IsWithin limit days

  IsDated : Text → ℕ → Text → Type 0
  IsDated database limit file =
      (days : ℤ) × (10 ≤ length (stamp database file))
      × (days_since (take 10 (stamp database file)) ≡ some days)
      × IsWithin limit days

  state-alarming :
      (weekly : Bool) (days : ℤ)
      → is_alarming (state_of_age weekly days).backup ≡ is_over (if weekly then 7 else 1) days
  unfolding state_of_age
  state-alarming weekly days = elim (Bool-cases (is_over (if weekly then 7 else 1) days)) [
    | inl e ↦ rw e refl
    | inr e ↦ rw e refl
  ]

  abbrev dated_health : Bool → Option ℤ → DbHealth
  dated_health weekly none = no_backup
  dated_health weekly (some days) = state_of_age weekly days

  IsDated-of_health :
      (weekly : Bool) (database file : Text) (o : Option ℤ)
      → days_since (take 10 (stamp database file)) ≡ o
      → 10 ≤ length (stamp database file)
      → is_alarming (dated_health weekly o).backup ≡ false
      → IsDated database (if weekly then 7 else 1) file
  unfolding IsDated
  IsDated-of_health weekly database file none e l h = cc
  IsDated-of_health weekly database file (some days) e l h =
      (days, l, e, IsWithin-is_over _ days (sym (state-alarming weekly days) ∙ h))

  file-IsDated :
      (weekly : Bool) (database file : Text)
      → is_alarming (health_of_file env days_since weekly database file).backup ≡ false
      → IsDated database (if weekly then 7 else 1) file
  unfolding health_of_file
  file-IsDated weekly database file h = elim (Bool-cases (ltb (length (stamp database file)) 10)) [
    | inl e ↦ absurd (ground arith)
    | inr e ↦ IsDated-of_health weekly database file _ refl (ground arith) (rw e at h)
  ]

  IsDated-file :
      (weekly : Bool) (database file : Text)
      → IsDated database (if weekly then 7 else 1) file
      → is_alarming (health_of_file env days_since weekly database file).backup ≡ false
  unfolding health_of_file IsDated
  IsDated-file weekly database file (days, l, e, w) =
      let short : ltb (length (stamp database file)) 10 ≡ false = ground arith in
      rw (short, e) (state-alarming weekly days ∙ is_over-IsWithin _ days w)

  -- The files listed, none if the listing failed.
  abbrev pub listed_files : Result Err (List Text) → List Text
  listed_files (ok files) = files
  listed_files (err e) = []

  pub fresh-IsRecent :
      (weekly : Bool) (database : Text) (r : Result Err (List Text))
      → is_alarming (health_of_files env days_since weekly database r).backup ≡ false
      → IsRecent database (if weekly then 7 else 1) (listed_files r)
  unfolding health_of_files IsDated
  fresh-IsRecent weekly database (err e) h = cc
  fresh-IsRecent weekly database (ok []) h = cc
  fresh-IsRecent weekly database (ok (f ∷ fs)) h =
      let (days, l, e, w) = file-IsDated weekly database (last_or_empty (sort (f ∷ fs))) h in
      record {
        newest = last_or_empty (sort (f ∷ fs));
        days = days;
        listed = newest-IsIn f fs;
        greatest = newest-greatest (f ∷ fs);
        long = l;
        dated = e;
        within = w;
      }

  pub IsRecent-fresh :
      (weekly : Bool) (database : Text) (r : Result Err (List Text))
      → IsRecent database (if weekly then 7 else 1) (listed_files r)
      → is_alarming (health_of_files env days_since weekly database r).backup ≡ false
  unfolding health_of_files
  IsRecent-fresh weekly database (err e) h = absurd h.listed
  IsRecent-fresh weekly database (ok []) h = absurd h.listed
  IsRecent-fresh weekly database (ok (f ∷ fs)) h =
      let last : Text = last_or_empty (sort (f ∷ fs)) in
      let same : h.newest ≡ last =
        text_leb_antisym h.newest last
          (IsIn-All (λ g. TextLe g last) h.newest (f ∷ fs) (newest-greatest (f ∷ fs)) h.listed)
          (IsIn-All (λ g. TextLe g h.newest) last (f ∷ fs) h.greatest (newest-IsIn f fs)) in
      IsDated-file weekly database last (
        subst (IsDated database (if weekly then 7 else 1)) same
          (unfold IsDated in (h.days, h.long, h.dated, h.within)))
