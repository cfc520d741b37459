-- ===== src/PointerContract/Contract/Updates/Sync.antt =====
-- Summary and delta of contracts/pointer-contract/src/lib.rs: how a peer brings another up to date.
use freenet_migrate.Prelude.{
  ◌≡◌, refl, sym, ap, subst, ◌∙◌, ◌↔◌, unwrap, Bool, true, false, not, Option, none, some, List, [],
  ◌∷◌, arith, Bytes, IsBytes, nat_eq, length, list_beq_iff, if◌then◌else◌,
}
use freenet_migrate.Prelude.Result.{Result, ok, err, ◌>>=◌, map_err}
use freenet_migrate.PointerContract.{
  Ed25519, PointerError, PointerParams, PointerRecord, parse, decode, encode, verify,
  decode_verified, merge,
}
use freenet_migrate.PointerContract.Records.{IsTyped, decode-IsTyped, decode-encode, length-encode}
use freenet_migrate.PointerContract.Contract.{
  delta, ContractError, contract_error, ok_of, record_beq, owed, update_state, summarize_state,
  get_state_delta,
}
use freenet_migrate.PointerContract.Contract.Updates.{
  offered, join, result, read, merge_all, update_promise,
}
use freenet_migrate.PointerContract.Contract.Updates.Promise.{update_state-eq-promise}
use freenet_migrate.PointerContract.Contract.Updates.Order.{decode_verified-ok}

record_beq_iff : (a b : PointerRecord) → (record_beq a b ≡ true) ↔ (a ≡ b)
unfolding record_beq
record_beq_iff a b =
    ground (arith, list_beq_iff a.code_hash b.code_hash, list_beq_iff a.signature b.signature)

-- Bytes of a whole record are offered, no bytes are not.
offered_whole : (bs : Bytes) → length bs ≡ 100 → offered (delta bs ∷ []) ≡ bs ∷ []
unfolding offered
offered_whole [] h = absurd (omega arith)
offered_whole (b ∷ bs) h = refl

offered_nothing : offered (delta [] ∷ []) ≡ []
unfolding offered
offered_nothing = refl

module _ (ed : Ed25519) (params : Bytes) where
  -- A verified record reads back from its encoding.
  decode_verified-encode :
      (bytes : Bytes) (r : PointerRecord)
      → IsBytes bytes
      → decode_verified ed bytes params ≡ ok r
      → IsTyped r × (decode_verified ed (encode r) params ≡ ok r)
  unfolding decode_verified
  decode_verified-encode bytes r h e =
      let (d, p, q, v) = decode_verified-ok ed bytes params r e in
      let t = decode-IsTyped bytes r h d in (t, rw (q, decode-encode r t, v))

  read-encode :
      (r : PointerRecord) (p : PointerParams ed)
      → IsTyped r
      → verify ed r params p.author_vk ≡ ok tt
      → read ed params p.author_vk (encode r) ≡ ok r
  unfolding read
  read-encode r p t v = rw (decode-encode r t, v)

  read_all :
      (best : Option PointerRecord) (r : PointerRecord) (p : PointerParams ed)
      → IsTyped r
      → verify ed r params p.author_vk ≡ ok tt
      → merge_all ed params p.author_vk best (encode r ∷ []) ≡ ok (some (join best r))
  unfolding merge_all
  read_all best r p t v = rw (read-encode r p t v) refl

  promised :
      (kept : Option PointerRecord) (bs cs : List Bytes) (w : PointerRecord) (p : PointerParams ed)
      (m : Result PointerError (PointerParams ed))
      → m ≡ ok p
      → bs ≡ cs
      → merge_all ed params p.author_vk kept cs ≡ ok (some w)
      → (map_err contract_error m >>= λ parsed.
          (merge_all ed params parsed.author_vk kept bs >>= result))
        ≡ ok (encode w)
  promised kept bs cs w p m q o h = rw (q, o) (rw h refl)

  not_empty : ok_of (decode_verified ed [] params) ≡ none
  unfolding decode_verified decode
  not_empty = ground arith

  summary_of : Result PointerError PointerRecord → Result ContractError Bytes
  summary_of m = elim m [ ok r ↦ ok (encode r) | err _ ↦ ok [] ]

  -- The summary of a state tells its record, if it has one.
  summary-tells :
      (theirs summary : Bytes)
      → IsBytes theirs
      → summarize_state ed params theirs ≡ ok summary
      → ok_of (decode_verified ed summary params) ≡ ok_of (decode_verified ed theirs params)
  unfolding summarize_state summary_of
  summary-tells theirs summary h e = go (decode_verified ed theirs params) refl e
    where
      go :
          (m : Result PointerError PointerRecord)
          → decode_verified ed theirs params ≡ m
          → summary_of m ≡ ok summary
          → ok_of (decode_verified ed summary params) ≡ ok_of m
      go (ok r) q k =
          let same : encode r ≡ summary = cc in
          ap ok_of (
            subst (λ b. decode_verified ed b params ≡ ok r) same
              (decode_verified-encode theirs r h q).1)
      go (err x) q k =
          let same : [] ≡ summary = cc in
          subst (λ b. ok_of (decode_verified ed b params) ≡ none) same not_empty

-- The delta that is owed to a side that holds `kept`.
owed_delta : Option PointerRecord → PointerRecord → Bytes
unfolding owed
owed_delta kept r = if owed kept r then encode r else []

-- Nothing is owed exactly if the other side has a record that merging `r` into does not change.
owed_delta-nil :
    (kept : Option PointerRecord) (r : PointerRecord)
    → IsTyped r
    → (owed_delta kept r ≡ []) ↔ ((t : PointerRecord) × (kept ≡ some t) × (merge t r ≡ t))
unfolding owed_delta owed
owed_delta-nil none r t = (λ h. absurd (omega (arith, ap length h, length-encode r t)), λ x. cc)
owed_delta-nil (some m) r t =
    (λ h. go (record_beq (merge m r) m) refl h, λ x. let (t, q, k) = x in back t (unwrap q) k)
  where
    go :
        (b : Bool)
        → record_beq (merge m r) m ≡ b
        → (if not b then encode r else []) ≡ []
        → (t : PointerRecord) × (some m ≡ some t) × (merge t r ≡ t)
    go true q h = (m, refl, (record_beq_iff (merge m r) m).0 q)
    go false q h = absurd (omega (arith, ap length h, length-encode r t))

    back :
        (x : PointerRecord)
        → m ≡ x
        → merge x r ≡ x
        → (if not (record_beq (merge m r) m) then encode r else []) ≡ []
    back x e h = rw ((record_beq_iff (merge m r) m).1 (subst (λ y. merge y r ≡ y) (sym e) h)) refl

get_state_delta-ok :
    (ed : Ed25519) (params ours summary d : Bytes) (r : PointerRecord)
    → decode_verified ed ours params ≡ ok r
    → get_state_delta ed params ours summary ≡ ok d
    → owed_delta (ok_of (decode_verified ed summary params)) r ≡ d
unfolding get_state_delta owed_delta
get_state_delta-ok ed params ours summary d r e h = ground (arith)

module _ (ed : Ed25519) (params : Bytes) where
  -- Merging what is owed is merging the record.
  merge_owed :
      (kept : Option PointerRecord) (r : PointerRecord) (p : PointerParams ed)
      → IsTyped r
      → verify ed r params p.author_vk ≡ ok tt
      → merge_all ed params p.author_vk kept (offered (delta (owed_delta kept r) ∷ []))
        ≡ ok (some (join kept r))
  unfolding owed_delta owed merge_all
  merge_owed none r p t v =
      rw (offered_whole (encode r) (length-encode r t)) (read_all ed params none r p t v)
  merge_owed (some m) r p t v = go (record_beq (merge m r) m) refl
    where
      go :
          (b : Bool)
          → record_beq (merge m r) m ≡ b
          → merge_all ed params p.author_vk
              (some m)
              (offered (delta (if not b then encode r else []) ∷ []))
            ≡ ok (some (merge m r))
      go true q =
          rw offered_nothing (ap (λ x. ok (some x)) (sym ((record_beq_iff (merge m r) m).0 q)))
      go false q =
          rw (offered_whole (encode r) (length-encode r t)) (read_all ed params (some m) r p t v)

  update_owed :
      (ours theirs : Bytes) (r : PointerRecord)
      → IsBytes ours
      → decode_verified ed ours params ≡ ok r
      → update_state ed params theirs
          (delta (owed_delta (ok_of (decode_verified ed theirs params)) r) ∷ [])
        ≡ some (ok (encode (join (ok_of (decode_verified ed theirs params)) r)))
  unfolding update_promise
  update_owed ours theirs r h e =
      let (d, p, q, v) = decode_verified-ok ed ours params r e in
      let t = decode-IsTyped ours r h d in
      let kept = ok_of (decode_verified ed theirs params) in
      update_state-eq-promise ed params theirs (delta (owed_delta kept r) ∷ [])
      ∙ ap some (
          promised ed params kept (offered (delta (owed_delta kept r) ∷ []))
            (offered (delta (owed_delta kept r) ∷ [])) (join kept r) p (parse ed params) q refl
            (merge_owed kept r p t v))

module _ (ed : Ed25519) (params ours theirs : Bytes) (r : PointerRecord) where
  -- The other side asks with the summary of its state, whatever that is, and is sent the delta that
  -- is owed for it: applying the delta succeeds and leaves what it held merged with our record, and
  -- the delta is empty exactly if it holds a verified record that our record does not change. Our
  -- state verifies, and both states are bytes.
  pub get_state_delta-brings_up_to_date :
      (summary d : Bytes)
      → IsBytes ours
      → IsBytes theirs
      → decode_verified ed ours params ≡ ok r
      → summarize_state ed params theirs ≡ ok summary
      → get_state_delta ed params ours summary ≡ ok d
      → (update_state ed params theirs (delta d ∷ [])
          ≡ some (ok (encode (join (ok_of (decode_verified ed theirs params)) r))))
        × ((d ≡ []) ↔ (
            (t : PointerRecord) × (ok_of (decode_verified ed theirs params) ≡ some t)
            × (merge t r ≡ t)))
  get_state_delta-brings_up_to_date summary d ho ht e hs hd =
      let kept = ok_of (decode_verified ed theirs params) in
      let told = summary-tells ed params theirs summary ht hs in
      let sent : owed_delta kept r ≡ d =
        ap (λ k. owed_delta k r) (sym told) ∙ get_state_delta-ok ed params ours summary d r e hd in
      let t = (decode_verified-encode ed params ours r ho e).0 in
      (
        subst (λ x. update_state ed params theirs (delta x ∷ []) ≡ some (ok (encode (join kept r))))
            sent (update_owed ed params ours theirs r ho e),
        subst (λ x. (x ≡ []) ↔ ((t : PointerRecord) × (kept ≡ some t) × (merge t r ≡ t))) sent
            (owed_delta-nil kept r t),
      )
