-- ===== src/Server/Replies.antt =====
-- `connection` of VCamUtils/src/messageserver.cpp: the answers and the requests.
use akvirtualcamera.Base.{
  ℕ, ◌≡◌, ◌⊎◌, subst, refl, Bool, List, [], ◌∷◌, some, arith, inl, inr, Option-cases, length, take,
  map, All,
}
use akvirtualcamera.Message.{Message}
use akvirtualcamera.Server.{Handlers, Round, handle, connection}

module _ {S : Type 0} (hs : Handlers S) (c : ℕ) where
  -- The handler of a round's message, if any handles it, answers under the query id of the message.
  abbrev pub KeepsId : Round → Type 0
  KeepsId r =
      (s t : S) (answer : Message) (ok : Bool)
      → handle hs c r s ≡ some (t, answer, ok)
      → answer.query_id ≡ r.message.query_id

  -- The answers of a connection are to its first requests, one each and in their order, where every
  -- request is answered under its query id.
  pub connection-query_ids :
      (rs : List Round) (s t : S) (answers : List Message)
      → All KeepsId rs
      → connection hs c rs s ≡ some (t, answers)
      → map (λ m. m.query_id) answers ≡ take (length answers) (map (λ r. r.message.query_id) rs)
  unfolding connection
  connection-query_ids [] s t answers keeps e = ground arith
  connection-query_ids (r ∷ rs) s t [] keeps e = refl
  connection-query_ids (r ∷ rs) s t (a ∷ later) keeps e = elim (Option-cases (handle hs c r s)) [
    | inl h ↦ absurd (ground (arith, h))
    | inr ((s', b, ok), h) ↦
        ground (arith, h, keeps.0 s s' b ok h, connection-query_ids rs s' t later keeps.1)
  ]

module _ {S : Type 0} (hs : Handlers S) (c : ℕ) (P : S → Type 0)
    (keeps : (r : Round) (s t : S) (answer : Message) (ok : Bool)
      → P s
      → handle hs c r s ≡ some (t, answer, ok)
      → P t) where
  -- What every handler keeps, a connection keeps.
  pub connection-keeps :
      (rs : List Round) (s t : S) (answers : List Message)
      → P s
      → connection hs c rs s ≡ some (t, answers)
      → P t
  unfolding connection
  connection-keeps [] s t answers p e = let same : s ≡ t = ground (arith, e) in subst P same p
  connection-keeps (r ∷ rs) s t answers p e = elim (Option-cases (handle hs c r s)) [
    | inl h ↦ absurd (ground (arith, h))
    | inr ((s', b, ok), h) ↦
        let p' = keeps r s s' b ok p h in
        elim (Option-cases (connection hs c rs s')) [
          | inl k ↦ (let same : s' ≡ t = ground (arith, h, k) in subst P same p')
          | inr ((u, later), k) ↦
              let q = connection-keeps rs s' u later p' k in
              let same : (u ≡ t) ⊎ (s' ≡ t) = ground (arith, h, k) in
              elim same [ inl x ↦ subst P x q | inr x ↦ subst P x p' ]
        ]
  ]
