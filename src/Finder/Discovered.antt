-- ===== src/Finder/Discovered.antt =====
-- What is recorded for a target file, and that `record_serving` records it and loses nothing.
use subfile_data_service.Prelude.{
  zero, suc, Bytes, bytes_eq, bytes_eq_iff, List, [], ◌∷◌, ◌++◌, true, some, if◌then◌else◌, ◌≡◌,
  refl, ap, ◌∙◌, Bool-cases, inl, inr,
}
use mathlib.Core.Path.{subst}
use subfile_data_service.HashMap.{get}
use subfile_data_service.Client.Targets.{IndexerEndpoint, contains}
use subfile_data_service.Finder.{
  Availability, FileAvailbilityMap, endpoint_eq, push_subfile, record_serving,
}
use subfile_data_service.Finder.Complete.{At}

-- Among what was found, the endpoint serves the subfile.
abbrev pub Serves : IndexerEndpoint → Bytes → Availability → Type 0
Serves endpoint subfile av =
    (subfiles : List Bytes) × At (endpoint, subfiles) av × At subfile subfiles

-- For the target file, the subfile is recorded under the endpoint.
abbrev pub IsRecorded : IndexerEndpoint → (subfile target : Bytes) → FileAvailbilityMap → Type 0
IsRecorded endpoint subfile target m =
    (av : Availability) × (get target m ≡ some av) × Serves endpoint subfile av

-- The file is among the targets.
abbrev pub IsTarget : Bytes → FileAvailbilityMap → Type 0
IsTarget target m = (av : Availability) × (get target m ≡ some av)

At-tail : {A : Type 0} (x y : A) (xs : List A) → At x xs → At x (y ∷ xs)
At-tail x y xs (k, found) = (suc k, found)

At-last : {A : Type 0} (x : A) (xs : List A) → At x (xs ++ x ∷ [])
At-last x [] = (0, refl)
At-last x (y ∷ xs) = At-tail x y (xs ++ x ∷ []) (At-last x xs)

At-front : {A : Type 0} (x : A) (xs ys : List A) → At x xs → At x (xs ++ ys)
At-front x [] ys (k, found) = absurd cc
At-front x (y ∷ xs) ys (zero, found) = (0, found)
At-front x (y ∷ xs) ys (suc k, found) = At-tail x y (xs ++ ys) (At-front x xs ys (k, found))

endpoint_eq_sound : (a b : IndexerEndpoint) → endpoint_eq a b ≡ true → a ≡ b
unfolding endpoint_eq
endpoint_eq_sound (a, u) (b, v) e = elim (Bool-cases (bytes_eq a b)) [
  | inl same ↦
      let operators : a ≡ b = (bytes_eq_iff a b).0 same in
      let urls : u ≡ v = (bytes_eq_iff u v).0 (rw same at e) in cc
  | inr other ↦ absurd cc (rw other at e)
]

push-Serves :
    (endpoint : IndexerEndpoint) (subfile : Bytes) (av : Availability)
    → Serves endpoint subfile (push_subfile endpoint subfile av)
unfolding push_subfile
push-Serves endpoint subfile [] = (subfile ∷ [], (0, refl), (0, refl))
push-Serves endpoint subfile ((e, subfiles) ∷ av) = elim (Bool-cases (endpoint_eq e endpoint)) [
  | inl same ↦ rw same (
      (
        subfiles ++ subfile ∷ [],
        (0, ap (λ x. some (x, subfiles ++ subfile ∷ [])) (endpoint_eq_sound e endpoint same)),
        At-last subfile subfiles,
      ))
  | inr other ↦
      let (found, there, has) = push-Serves endpoint subfile av in
      rw other ((found, At-tail (endpoint, found) (e, subfiles) _ there, has))
]

push-kept :
    (endpoint other : IndexerEndpoint) (subfile new : Bytes) (av : Availability)
    → Serves endpoint subfile av
    → Serves endpoint subfile (push_subfile other new av)
unfolding push_subfile
push-kept endpoint other subfile new [] (found, there, has) = absurd (At-nil there)
  where
    At-nil : {A : Type 0} {x : A} → At x [] → ⊥
    At-nil (k, e) = cc
push-kept endpoint other subfile new ((e, subfiles) ∷ av) (found, (zero, there), has) =
    let same_endpoint : e ≡ endpoint = cc in
    let same_list : found ≡ subfiles = cc in
    elim (Bool-cases (endpoint_eq e other)) [
      | inl same ↦ rw same (
          (
            subfiles ++ new ∷ [],
            (0, ap (λ x. some (x, subfiles ++ new ∷ [])) same_endpoint),
            At-front subfile subfiles (new ∷ []) (subst (At subfile) same_list has),
          ))
      | inr differ ↦ rw differ ((found, (0, there), has))
    ]
push-kept endpoint other subfile new ((e, subfiles) ∷ av) (found, (suc k, there), has) =
    elim (Bool-cases (endpoint_eq e other)) [
      | inl same ↦ rw same ((found, (suc k, there), has))
      | inr differ ↦
          let (more, later, held) =
            push-kept endpoint other subfile new av (found, (k, there), has) in
          rw differ ((more, At-tail (endpoint, more) (e, subfiles) _ later, held))
    ]

module _ (endpoint : IndexerEndpoint) (subfile : Bytes) (hashes : List Bytes) where
  -- What was recorded for a target file, after one more subfile.
  record_serving-get :
      (target : Bytes) (av : Availability) (m : FileAvailbilityMap)
      → get target m ≡ some av
      → get target (record_serving endpoint subfile hashes m)
        ≡ some (if contains target hashes then push_subfile endpoint subfile av else av)
  unfolding get record_serving
  record_serving-get target av [] e = absurd cc
  record_serving-get target av ((t, v) ∷ m) e = elim (Bool-cases (bytes_eq t target)) [
    | inl same ↦
        let keys : t ≡ target = (bytes_eq_iff t target).0 same in
        let values : v ≡ av = cc (rw same at e) in rw same (ap some (rw (keys, values) refl))
    | inr other ↦ rw other (record_serving-get target av m (rw other at e))
  ]

  pub record_serving-IsTarget :
      (target : Bytes) (m : FileAvailbilityMap)
      → IsTarget target m
      → IsTarget target (record_serving endpoint subfile hashes m)
  record_serving-IsTarget target m (av, found) = (
    if contains target hashes then push_subfile endpoint subfile av else av,
    record_serving-get target av m found,
  )

  pub record_serving-kept :
      (recorded : IndexerEndpoint) (old target : Bytes) (m : FileAvailbilityMap)
      → IsRecorded recorded old target m
      → IsRecorded recorded old target (record_serving endpoint subfile hashes m)
  record_serving-kept recorded old target m (av, found, serves) =
      elim (Bool-cases (contains target hashes)) [
        | inl has ↦ (
          push_subfile endpoint subfile av,
          record_serving-get target av m found ∙ rw has refl,
          push-kept recorded endpoint old subfile av serves,
        )
        | inr lacks ↦ (av, record_serving-get target av m found ∙ rw lacks refl, serves)
      ]

  pub record_serving-IsRecorded :
      (target : Bytes) (av : Availability) (m : FileAvailbilityMap)
      → get target m ≡ some av
      → contains target hashes ≡ true
      → IsRecorded endpoint subfile target (record_serving endpoint subfile hashes m)
  record_serving-IsRecorded target av m found has = (
    push_subfile endpoint subfile av,
    record_serving-get target av m found ∙ rw has refl,
    push-Serves endpoint subfile av,
  )
