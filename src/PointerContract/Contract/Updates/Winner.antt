-- ===== src/PointerContract/Contract/Updates/Winner.antt =====
-- What the record that `update_state` of contracts/pointer-contract/src/lib.rs keeps is to the state
-- and to each candidate.
use freenet_migrate.Prelude.{
  ◌≤◌, ◌≡◌, refl, sym, ap, subst, ◌∙◌, unwrap, Option, none, some, List, [], ◌∷◌, arith, Bytes,
  IsBytes, All,
}
use freenet_migrate.Prelude.Result.{Result, ok, err, ◌>>=◌, map_err}
use freenet_migrate.PointerContract.{
  Ed25519, PointerError, PointerParams, PointerRecord, parse, decode, encode, verify,
  decode_verified, merge,
}
use freenet_migrate.PointerContract.Records.{IsTyped, decode-IsTyped, decode-encode}
use freenet_migrate.PointerContract.Merge.{merge_idem, merge_comm, merge_assoc}
use freenet_migrate.PointerContract.Contract.{
  UpdateData, ContractError, contract_error, ok_of, update_state, validate_state, valid,
}
use freenet_migrate.PointerContract.Contract.Updates.{
  offered, result, read, merge_all, update_promise,
}
use freenet_migrate.PointerContract.Contract.Updates.Promise.{update_state-eq-promise}
use freenet_migrate.PointerContract.Contract.Updates.Order.{read-IsTyped, decode_verified-ok}

-- Each side of a merge merges into the result, which is one of the two.
merge_upper :
    (a b : PointerRecord)
    → IsTyped a
    → IsTyped b
    → (merge a (merge a b) ≡ merge a b) × (merge b (merge a b) ≡ merge a b)
merge_upper a b t u = (
  sym (merge_assoc a a b) ∙ ap (λ m. merge m b) (merge_idem a),
  ap (merge b) (merge_comm a b t u)
      ∙ sym (merge_assoc b b a)
      ∙ ap (λ m. merge m a) (merge_idem b)
      ∙ merge_comm b a u t,
)

module _ (ed : Ed25519) (params : Bytes) (author_vk : ed.VerifyingKey) where
  -- A record of the right sizes that verifies.
  abbrev IsGood : PointerRecord → Type 0
  IsGood r = IsTyped r × (verify ed r params author_vk ≡ ok tt)

  read-IsGood :
      (bytes : Bytes) (r : PointerRecord)
      → IsBytes bytes
      → read ed params author_vk bytes ≡ ok r
      → IsGood r
  unfolding read
  read-IsGood bytes r h e = (read-IsTyped ed params author_vk bytes r h e, ground arith)

  merge-IsGood : (a b : PointerRecord) → IsGood a → IsGood b → IsGood (merge a b)
  unfolding merge
  merge-IsGood a b g h = ground arith

  -- What merges into `merge m c`, merges where that does.
  merge_below :
      (m c w : PointerRecord)
      → IsTyped m
      → IsTyped c
      → merge (merge m c) w ≡ w
      → (merge m w ≡ w) × (merge c w ≡ w)
  merge_below m c w t u h =
      let (over_m, over_c) = merge_upper m c t u in
      (
        ap (merge m) (sym h) ∙ sym (merge_assoc m (merge m c) w) ∙ ap (λ x. merge x w) over_m ∙ h,
        ap (merge c) (sym h) ∙ sym (merge_assoc c (merge m c) w) ∙ ap (λ x. merge x w) over_c ∙ h,
      )

  -- Every candidate was read, and merging it again would change nothing.
  abbrev pub AllWithin : PointerRecord → List Bytes → Type 0
  AllWithin w bs =
      All (λ b. (c : PointerRecord) × (read ed params author_vk b ≡ ok c) × (merge c w ≡ w)) bs

  abbrev Settled : PointerRecord → PointerRecord → List Bytes → Type 0
  Settled m w bs = IsGood w × (merge m w ≡ w) × AllWithin w bs

  -- `w` is what was kept after everything in `bs` was merged into `m`.
  kept_upper :
      (bs : List Bytes) (m w : PointerRecord)
      → IsGood m
      → All IsBytes bs
      → merge_all ed params author_vk (some m) bs ≡ ok (some w)
      → Settled m w bs
  unfolding merge_all
  kept_upper [] m w g h e =
      let same : m ≡ w = cc in
      (subst IsGood same g, subst (λ x. merge m x ≡ x) same (merge_idem m), tt)
  kept_upper (b ∷ bs) m w g h e = go (kept_upper bs) (read ed params author_vk b) refl e
    where
      go :
          ((m w : PointerRecord)
            → IsGood m
            → All IsBytes bs
            → merge_all ed params author_vk (some m) bs ≡ ok (some w)
            → Settled m w bs)
          → (r : Result ContractError PointerRecord) → read ed params author_vk b ≡ r
          → (r >>= λ c. merge_all ed params author_vk (some (merge m c)) bs) ≡ ok (some w)
          → Settled m w (b ∷ bs)
      go ih (err x) q k = cc
      go ih (ok c) q k =
          let good = read-IsGood b c h.0 q in
          let (gw, below, rest) = ih (merge m c) w (merge-IsGood m c g good) h.1 k in
          let (over_m, over_c) = merge_below m c w g.0 good.0 below in
          (gw, over_m, ((c, q, over_c), rest))

  -- The same from what may be kept at the start.
  settled :
      (best : Option PointerRecord) (bs : List Bytes) (w : PointerRecord)
      → ((m : PointerRecord) → best ≡ some m → IsGood m)
      → All IsBytes bs
      → merge_all ed params author_vk best bs ≡ ok (some w)
      → IsGood w × ((m : PointerRecord) → best ≡ some m → merge m w ≡ w) × AllWithin w bs
  unfolding merge_all
  settled (some m) bs w g h e =
      let (gw, below, rest) = kept_upper bs m w (g m refl) h e in
      (gw, λ m' q. subst (λ x. merge x w ≡ w) (unwrap q) below, rest)
  settled none [] w g h e = cc
  settled none (b ∷ bs) w g h e = go (read ed params author_vk b) refl e
    where
      go :
          (r : Result ContractError PointerRecord)
          → read ed params author_vk b ≡ r
          → (r >>= λ c. merge_all ed params author_vk (some c) bs) ≡ ok (some w)
          → IsGood w × ((m : PointerRecord) → none ≡ some m → merge m w ≡ w) × AllWithin w (b ∷ bs)
      go (err x) q k = cc
      go (ok c) q k =
          let good = read-IsGood b c h.0 q in
          let (gw, below, rest) = kept_upper bs c w good h.1 k in
          (gw, λ m q. cc, ((c, q, below), rest))

ok_of-some : {E A : Type 0} (r : Result E A) {a : A} → ok_of r ≡ some a → r ≡ ok a
ok_of-some (ok x) h = ap ok (unwrap h)
ok_of-some (err e) h = cc

-- `out` is a valid state that holds a record into which the record of the old state, if that
-- verifies, and the record of every candidate merge without changing it; its version is not below
-- the old one.
pub record Settles (ed : Ed25519) (params bytes : Bytes) (us : List UpdateData) (out : Bytes)
    : Type 0 where
  pub winner : PointerRecord
  pub parsed : PointerParams ed
  pub parses : parse ed params ≡ ok parsed
  pub decodes : decode_verified ed out params ≡ ok winner
  pub validates : validate_state ed params out ≡ ok valid
  pub over_state :
      (old : PointerRecord)
      → decode_verified ed bytes params ≡ ok old
      → (merge old winner ≡ winner) × (old.version ≤ winner.version)
  pub over_offers : AllWithin ed params parsed.author_vk winner (offered us)

result-ok :
    (m : Result ContractError (Option PointerRecord)) {out : Bytes}
    → (m >>= result) ≡ ok out
    → (w : PointerRecord) × (m ≡ ok (some w)) × (encode w ≡ out)
result-ok (ok (some w)) h = (w, refl, cc)
result-ok (ok none) h = cc
result-ok (err e) h = cc

merge-le : (a b : PointerRecord) → a.version ≤ (merge a b).version
unfolding merge
merge-le a b = ground arith

module _ (ed : Ed25519) (params out : Bytes) (p : PointerParams ed) (w : PointerRecord)
    (q : parse ed params ≡ ok p) (d : decode out ≡ ok w)
    (v : verify ed w params p.author_vk ≡ ok tt) where
  decode_verified_of : decode_verified ed out params ≡ ok w
  unfolding decode_verified
  decode_verified_of = rw (q, d, v)

  validate_state_of : validate_state ed params out ≡ ok valid
  unfolding validate_state
  validate_state_of = rw (q, d) (rw (v, map_err, ◌>>=◌))

kept-IsGood :
    (ed : Ed25519) (params bytes : Bytes) (p : PointerParams ed)
    → IsBytes bytes
    → parse ed params ≡ ok p
    → (m : PointerRecord) → ok_of (decode_verified ed bytes params) ≡ some m
    → IsGood ed params p.author_vk m
kept-IsGood ed params bytes p hb q m e =
    let (d, p', q', v) = decode_verified-ok ed bytes params m (ok_of-some _ e) in
    let same : p' ≡ p = cc in
    (decode-IsTyped bytes m hb d, subst (λ x. verify ed m params x.author_vk ≡ ok tt) same v)

module _ (ed : Ed25519) (params bytes : Bytes) (us : List UpdateData) where
  -- Where the state and the candidates are bytes, an update that succeeds leaves a state that
  -- validates and holds a verified record; the old record, if the old state verifies, and every
  -- candidate's record merge into it without changing it, and its version is not below the old one.
  pub update_state-Settles :
      (out : Bytes)
      → IsBytes bytes
      → All IsBytes (offered us)
      → update_state ed params bytes us ≡ some (ok out)
      → Settles ed params bytes us out
  unfolding update_promise
  update_state-Settles out hb ho h =
      go (parse ed params) refl (unwrap (sym (update_state-eq-promise ed params bytes us) ∙ h))
    where
      Kept : Option PointerRecord
      Kept = ok_of (decode_verified ed bytes params)

      go :
          (r : Result PointerError (PointerParams ed))
          → parse ed params ≡ r
          → (map_err contract_error r >>= λ parsed.
              (merge_all ed params parsed.author_vk Kept (offered us) >>= result))
            ≡ ok out
          → Settles ed params bytes us out
      go (err e) q k = cc
      go (ok p) q k =
          let (w, m, e) = result-ok (merge_all ed params p.author_vk Kept (offered us)) k in
          let (gw, over, rest) =
            settled ed params p.author_vk Kept (offered us) w (kept-IsGood ed params bytes p hb q)
              ho m in
          let d : decode out ≡ ok w = subst (λ x. decode x ≡ ok w) e (decode-encode w gw.0) in
          record {
            winner = w;
            parsed = p;
            parses = q;
            decodes = decode_verified_of ed params out p w q d gw.1;
            validates = validate_state_of ed params out p w q d gw.1;
            over_state = λ old z.
                let below : merge old w ≡ w = over old (ap ok_of z) in
                (below, subst (λ x. old.version ≤ x.version) below (merge-le old w));
            over_offers = rest;
          }
