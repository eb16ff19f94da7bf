-- ===== src/Objstore/Batch/Sent.antt =====
-- pkg/objstore/ops.go, DeleteKeys: what is asked of the server.
use mathlib.Core.List.{flatten, map-append, append-nil, append_assoc}
use io_stress.Common.{
  ℕ, suc, ◌≤◌, ◌≡◌, refl, sym, ap, subst, ◌∙◌, Bool, true, false, not, ◌&&◌, List, [], ◌∷◌, ◌++◌,
  map, none, ◌==◌, length, arith,
}
use io_stress.Common.Int.{pos}
use io_stress.Objstore.Keys.{chunk}
use io_stress.Objstore.Keys.Chunks.{Batches, chunk-Batches}
use io_stress.Objstore.Calls.{Result, good, bad, KeyError}
use io_stress.Objstore.Batch.{
  ByteId, ObjectIdentifier, pack, split_id, version_of, identifier, Deleted, batch_end,
  delete_batches, delete_all,
}

-- Whether a key has no zero byte.
abbrev pub plain : List ℕ → Bool
plain [] = true
plain (c ∷ cs) = not (c == 0) && plain cs

abbrev pub all_plain : List ByteId → Bool
all_plain [] = true
all_plain (id ∷ ids) = plain id.key && all_plain ids

-- What the server has to be asked for.
abbrev pub wanted : ByteId → ObjectIdentifier
wanted id = record { key = id.key; version_id = version_of id.version_id }

abbrev pub AtMost : ℕ → List (List ObjectIdentifier) → Type 0
AtMost n [] = Unit {0}
AtMost n (b ∷ bs) = (length b ≤ n) × AtMost n bs

split_id-pack :
    (key version : List ℕ) → plain key ≡ true → split_id (key ++ 0 ∷ version) ≡ (key, version, true)
unfolding split_id
split_id-pack [] version h = refl
split_id-pack (c ∷ cs) version h =
    let rest = split_id-pack cs version (ground (arith, h)) in
    let other : (c == 0) ≡ false = ground (arith, h) in rw (other, rest) refl

identifier-pack : (id : ByteId) → plain id.key ≡ true → identifier (pack id) ≡ wanted id
unfolding identifier pack
identifier-pack id h = rw (split_id-pack id.key id.version_id h) refl

map-identifier-pack :
    (ids : List ByteId) → all_plain ids ≡ true → map identifier (map pack ids) ≡ map wanted ids
map-identifier-pack [] h = refl
map-identifier-pack (id ∷ ids) h =
    let first = identifier-pack id (ground (arith, h)) in
    let rest = map-identifier-pack ids (ground (arith, h)) in cc

length-map : {A B : Type 0} (f : A → B) (xs : List A) → length (map f xs) ≡ length xs
length-map f [] = refl
length-map f (x ∷ xs) = ap suc (length-map f xs)

module _ (World : Type 0)
    (delete_objects : List ObjectIdentifier → World → Result (List KeyError) × World) where
  -- The batches that were sent hold a prefix of `ids`, all of them if there was no error.
  abbrev pub Covers : ℕ → List ObjectIdentifier → Deleted World delete_objects → Type 0
  Covers n ids (errs, err, sent, w) =
      ((rest : List ObjectIdentifier) × (flatten sent ++ rest ≡ ids) × (err ≡ none → rest ≡ []))
      × AtMost n sent

  batch_end-Covers :
      (n : ℕ) (objs ids : List ObjectIdentifier) (got : Result (List KeyError) × World)
      (rest : Deleted World delete_objects)
      → length objs ≤ n
      → Covers n ids rest
      → Covers n (objs ++ ids) (batch_end World delete_objects objs got rest)
  unfolding batch_end flatten
  batch_end-Covers n objs ids (bad e, w) rest le h =
      ((ids, ap (λ x. x ++ ids) (append-nil objs), λ none_. absurd (cc)), (le, tt))
  batch_end-Covers n objs ids (good errs, w) rest le ((more, e, all), short) =
      ((more, append_assoc objs (flatten rest.2) more ∙ ap (λ x. objs ++ x) e, all), (le, short))

  delete_batches-cons :
      (n : ℕ) (b : List (List ℕ)) (bs : List (List (List ℕ))) (w : World)
      → length b ≤ n
      → ((w' : World)
          → Covers n (map identifier (flatten bs)) (delete_batches World delete_objects bs w'))
      → Covers n
          (map identifier (flatten (b ∷ bs)))
          (delete_batches World delete_objects (b ∷ bs) w)
  unfolding delete_batches flatten
  delete_batches-cons n b bs w le later =
      let got = delete_objects (map identifier b) w in
      let rest = delete_batches World delete_objects bs got.1 in
      subst (λ ids. Covers n ids (batch_end World delete_objects (map identifier b) got rest))
        (sym (map-append identifier b (flatten bs)))
        (batch_end-Covers n (map identifier b) (map identifier (flatten bs)) got rest
          (omega (arith, length-map identifier b)) (later got.1))

  delete_batches-Covers :
      (n : ℕ) (batches : List (List (List ℕ))) (w : World)
      → Batches n batches
      → Covers n (map identifier (flatten batches)) (delete_batches World delete_objects batches w)
  unfolding delete_batches flatten
  delete_batches-Covers n [] w h = (([], refl, λ e. refl), tt)
  delete_batches-Covers n (b ∷ []) w h =
      delete_batches-cons n b [] w h.1 (λ w'. delete_batches-Covers n [] w' tt)
  delete_batches-Covers n (b ∷ (c ∷ bs)) w h =
      delete_batches-cons n b (c ∷ bs) w (omega (arith, h.0))
        (λ w'. delete_batches-Covers n (c ∷ bs) w' h.1)

  -- DeleteKeys, for keys without a zero byte, asks the server for a prefix of the ids in their order,
  -- each with its key and, where it has one, its version id; for all of them if no call
  -- failed; and for at most 1000 in one call.
  pub delete_all-Covers :
      (ids : List ByteId) (w : World)
      → all_plain ids ≡ true
      → Covers 1000 (map wanted ids) (delete_all World delete_objects ids w)
  unfolding delete_all flatten
  delete_all-Covers [] w h = (([], refl, λ e. refl), tt)
  delete_all-Covers (id ∷ ids) w h =
      let packed = map pack (id ∷ ids) in
      let (whole, sizes) = chunk-Batches packed (pos 1000) in
      subst (λ xs. Covers 1000 xs (delete_batches World delete_objects (chunk packed (pos 1000)) w))
        (ap (λ xs. map identifier xs) whole ∙ map-identifier-pack (id ∷ ids) h)
        (delete_batches-Covers 1000 (chunk packed (pos 1000)) w sizes)
