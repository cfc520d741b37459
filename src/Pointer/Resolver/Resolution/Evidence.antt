-- ===== src/Pointer/Resolver/Resolution/Evidence.antt =====
-- What stands behind an outcome of `resolve_app_pointer` of freenet-migrate/src/pointer.rs.
use freenet_migrate.Prelude.{
  ◌≡◌, ◌⊎◌, ◌≤◌, refl, sym, ap, subst, unwrap, ◌∙◌, true, false, some, [], ◌∷◌, arith, Bytes,
  PartialEq,
}
use freenet_migrate.Prelude.Result.{Result, ok, err, map_err}
use freenet_migrate.PointerContract
use freenet_migrate.PointerContract.{
  Ed25519, PointerRecord, encode_params, decode, verify, is_tombstone,
}
use freenet_migrate.Pointer.{
  PointerError, PointerFloor, PointerOutcome, resolved, unchanged, ResolvedPointer,
  may_use_baked_in_fallback, order, order_from, order_hashes, adopt, unchanged_by, of_pointer,
}
use freenet_migrate.Pointer.Resolver.{
  ordered, served, absent_outcome, checked, decoded_as, PointerFetch, state, absent, unreachable,
  ResolveError, pointer, resolve_app_pointer,
}
use freenet_migrate.Pointer.Resolver.Resolution.{
  verdict, fetched, asked, resolve_promise, resolve_app_pointer-eq-promise,
}

module _ (ed : Ed25519) (floor : PointerFloor) (params : Bytes) (vk : ed.VerifyingKey) where
  -- A record was read and verified, and put in the order of the floor.
  Verified : Bytes → PointerOutcome → Type 0
  Verified bytes o =
      (r : PointerRecord) × (decode bytes ≡ ok r)
      × (verify ed r params vk ≡ ok tt)
      × (order floor r ≡ o)

  ordered-ok :
      (bytes : Bytes) (o : PointerOutcome)
      → ordered ed floor params vk bytes ≡ ok o
      → Verified bytes o
  unfolding ordered decoded_as Verified
  ordered-ok bytes o h = go (decode bytes) refl h
    where
      last :
          (r : PointerRecord) (m : Result PointerContract.PointerError (Unit {0}))
          → checked ed floor r m ≡ ok o
          → (m ≡ ok tt) × (order floor r ≡ o)
      last r m h = unfold checked in ground arith

      go :
          (m : Result PointerContract.PointerError PointerRecord)
          → decode bytes ≡ m
          → decoded_as ed floor params vk m ≡ ok o
          → (r : PointerRecord) × (decode bytes ≡ ok r)
            × (verify ed r params vk ≡ ok tt)
            × (order floor r ≡ o)
      go (err x) q k = cc
      go (ok r) q k = let (v, e) = last r (verify ed r params vk) k in (r, q, v, e)

  never-order : (r : PointerRecord) → may_use_baked_in_fallback (order floor r) ≡ false
  unfolding order order_from order_hashes adopt unchanged_by may_use_baked_in_fallback
  never-order r = ground arith

  -- What a resolution that may fall back has behind it.
  verdict-fallback :
      (f : PointerFetch) (o : PointerOutcome)
      → verdict ed floor params vk f ≡ ok o
      → may_use_baked_in_fallback o ≡ true
      → (f ≡ absent) × (floor.version ≡ 0)
  unfolding verdict served absent_outcome may_use_baked_in_fallback Verified
  verdict-fallback (state []) o h m = ground arith
  verdict-fallback (state (b ∷ bytes)) o h m =
      let (r, d, v, e) = ordered-ok (b ∷ bytes) o h in
      let never : may_use_baked_in_fallback o ≡ false =
        ap may_use_baked_in_fallback (sym e) ∙ never-order r in
      cc
  verdict-fallback absent o h m = ground arith
  verdict-fallback unreachable o h m = ground arith

  order-resolved :
      (r : PointerRecord) (p : ResolvedPointer)
      → (order floor r ≡ resolved p) ⊎ (order floor r ≡ unchanged p)
      → (p ≡ of_pointer r) × (is_tombstone r ≡ false) × (floor.version ≤ r.version)
  unfolding order order_from order_hashes adopt unchanged_by is_tombstone
  order-resolved r p k = ground arith

  -- What a resolution to a record has behind it.
  verdict-resolved :
      (f : PointerFetch) (o : PointerOutcome) (p : ResolvedPointer)
      → verdict ed floor params vk f ≡ ok o
      → (o ≡ resolved p) ⊎ (o ≡ unchanged p)
      → (bytes : Bytes) × (r : PointerRecord) × (f ≡ state bytes)
        × (decode bytes ≡ ok r)
        × (verify ed r params vk ≡ ok tt)
        × (p ≡ of_pointer r)
        × (is_tombstone r ≡ false)
        × (floor.version ≤ r.version)
  unfolding verdict served absent_outcome Verified
  verdict-resolved (state []) o p h k = ground arith
  verdict-resolved (state (b ∷ bytes)) o p h k =
      let (r, d, v, e) = ordered-ok (b ∷ bytes) o h in
      let (q, t, l) =
        order-resolved r p (subst (λ x. (x ≡ resolved p) ⊎ (x ≡ unchanged p)) (sym e) k) in
      (b ∷ bytes, r, refl, d, v, q, t, l)
  verdict-resolved absent o p h k = ground arith
  verdict-resolved unreachable o p h k = ground arith

module _ {ContractId W E : Type 0} ⦃e : PartialEq ContractId⦄ (ed : Ed25519)
    (contract_id : Bytes → ContractId) (get_pointer : ContractId → W → Result E PointerFetch × W)
    (author_vk : ed.VerifyingKey) (floor : PointerFloor) where
  -- The parameters were written, and the transport gave one answer.
  Answered : Bytes → W → W → PointerOutcome → Type 0
  Answered app_id w w' o =
      (params : Bytes) × (f : PointerFetch) × (encode_params ed author_vk app_id ≡ ok params)
      × (get_pointer (contract_id params) w ≡ (ok f, w'))
      × (verdict ed floor params author_vk f ≡ ok o)

  resolved-Answered :
      (app_id : Bytes) (w w' : W) (o : PointerOutcome)
      → resolve_app_pointer ed contract_id get_pointer author_vk app_id floor w ≡ some (ok o, w')
      → Answered app_id w w' o
  unfolding Answered resolve_promise
  resolved-Answered app_id w w' o h = go (encode_params ed author_vk app_id) refl (
      unwrap (
        sym (resolve_app_pointer-eq-promise ed contract_id get_pointer author_vk floor app_id w)
        ∙ h))
    where
      Goal : Type 0
      Goal =
          (params : Bytes) × (f : PointerFetch) × (encode_params ed author_vk app_id ≡ ok params)
          × (get_pointer (contract_id params) w ≡ (ok f, w'))
          × (verdict ed floor params author_vk f ≡ ok o)

      told :
          (m : Result PointerError PointerOutcome) (v : W)
          → ◌≡◌ {A = Result (ResolveError E) PointerOutcome × W} (map_err pointer m, v) (ok o, w')
          → (m ≡ ok o) × (v ≡ w')
      told (ok x) v k = (cc, cc)
      told (err x) v k = cc

      got :
          (params : Bytes) (r : Result E PointerFetch × W)
          → encode_params ed author_vk app_id ≡ ok params
          → get_pointer (contract_id params) w ≡ r
          → fetched ed contract_id get_pointer author_vk floor params r ≡ (ok o, w')
          → Goal
      got params (err x, v) q g k = unfold fetched in cc
      got params (ok f, v) q g k =
          let (m, same) = told (verdict ed floor params author_vk f) v (unfold fetched in k) in
          (params, f, q, subst (λ z. get_pointer (contract_id params) w ≡ (ok f, z)) same g, m)

      go :
          (m : Result PointerContract.PointerError Bytes)
          → encode_params ed author_vk app_id ≡ m
          → asked ed contract_id get_pointer author_vk floor m w ≡ (ok o, w')
          → Goal
      go (err x) q k = unfold asked in cc
      go (ok params) q k =
          got params (get_pointer (contract_id params) w) q refl (unfold asked in k)

  -- A resolution lets the application fall back to what it was built with only if the transport
  -- answered that the pointer is absent and the floor says that none was ever resolved.
  pub resolve_app_pointer-fallback :
      (app_id : Bytes) (w w' : W) (o : PointerOutcome)
      → resolve_app_pointer ed contract_id get_pointer author_vk app_id floor w ≡ some (ok o, w')
      → may_use_baked_in_fallback o ≡ true
      → (params : Bytes) × (encode_params ed author_vk app_id ≡ ok params)
        × (get_pointer (contract_id params) w ≡ (ok absent, w'))
        × (floor.version ≡ 0)
  unfolding Answered
  resolve_app_pointer-fallback app_id w w' o h m =
      let (params, f, q, g, v) = resolved-Answered app_id w w' o h in
      let (same, never) = verdict-fallback ed floor params author_vk f o v m in
      (params, q, subst (λ x. get_pointer (contract_id params) w ≡ (ok x, w')) same g, never)

  -- A resolution to a pointer, new or unchanged, rests on bytes that the transport served under the
  -- pointer's own identifier: they decode to a record that the author's key verifies for these
  -- parameters, that is not a tombstone and not below the floor, and that the pointer repeats.
  pub resolve_app_pointer-resolved :
      (app_id : Bytes) (w w' : W) (o : PointerOutcome) (p : ResolvedPointer)
      → resolve_app_pointer ed contract_id get_pointer author_vk app_id floor w ≡ some (ok o, w')
      → (o ≡ resolved p) ⊎ (o ≡ unchanged p)
      → (params : Bytes) × (bytes : Bytes) × (r : PointerRecord) × (encode_params ed author_vk
            app_id
          ≡ ok params)
        × (get_pointer (contract_id params) w ≡ (ok (state bytes), w'))
        × (decode bytes ≡ ok r)
        × (verify ed r params author_vk ≡ ok tt)
        × (p ≡ of_pointer r)
        × (is_tombstone r ≡ false)
        × (floor.version ≤ r.version)
  unfolding Answered
  resolve_app_pointer-resolved app_id w w' o p h k =
      let (params, f, q, g, v) = resolved-Answered app_id w w' o h in
      let (bytes, r, same, d, s, x, y, z) = verdict-resolved ed floor params author_vk f o p v k in
      (
        params,
        bytes,
        r,
        q,
        subst (λ x. get_pointer (contract_id params) w ≡ (ok x, w')) same g,
        d,
        s,
        x,
        y,
        z,
      )
