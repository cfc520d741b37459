-- ===== src/PointerContract/Contract/Updates/Order.antt =====
-- `update_state` of contracts/pointer-contract/src/lib.rs: the order of the candidates.
use mathlib.Core.List.{Permᴰ}
use freenet_migrate.Prelude.{
  ◌≡◌, refl, sym, ap, subst, ◌∙◌, unwrap, Option, none, some, List, arith, Bytes, IsBytes, All,
}
use freenet_migrate.Prelude.Result.{Result, ok, err, ◌>>=◌, map_err}
use freenet_migrate.PointerContract.{
  Ed25519, PointerError, PointerParams, PointerRecord, parse, decode, verify, decode_verified,
  merge,
}
use freenet_migrate.PointerContract.Records.{IsTyped, decode-IsTyped}
use freenet_migrate.PointerContract.Merge.{merge-IsTyped, merge_comm, merge_assoc}
use freenet_migrate.PointerContract.Contract.{
  UpdateData, ContractError, contract_error, ok_of, update_state,
}
use freenet_migrate.PointerContract.Contract.Updates.{
  offered, join, result, read, merge_all, update_promise,
}
use freenet_migrate.PointerContract.Contract.Updates.Promise.{update_state-eq-promise}

abbrev KeptIsTyped : Option PointerRecord → Type 0
KeptIsTyped none = Unit
KeptIsTyped (some r) = IsTyped r

join-IsTyped :
    (best : Option PointerRecord) (r : PointerRecord)
    → KeptIsTyped best
    → IsTyped r
    → IsTyped (join best r)
join-IsTyped none r t u = u
join-IsTyped (some m) r t u = merge-IsTyped m r t u

-- Two candidates may change places.
join_swap :
    (best : Option PointerRecord) (a b : PointerRecord)
    → KeptIsTyped best
    → IsTyped a
    → IsTyped b
    → merge (join best a) b ≡ merge (join best b) a
join_swap none a b t u v = merge_comm a b u v
join_swap (some m) a b t u v =
    merge_assoc m a b ∙ ap (merge m) (merge_comm a b u v) ∙ sym (merge_assoc m b a)

All-perm : {A : Type 0} (P : A → Type 0) {xs ys : List A} → Permᴰ xs ys → All P xs → All P ys
All-perm P Permᴰ.nil h = tt
All-perm P (Permᴰ.cons e p) h = (subst P e h.0, All-perm P p h.1)
All-perm P (Permᴰ.swap e f) h = (subst P f h.1.0, (subst P e h.0, h.1.1))
All-perm P (Permᴰ.trans p q) h = All-perm P q (All-perm P p h)

bind_keep :
    {A : Type 0} (r : Result ContractError PointerRecord)
    (f g : PointerRecord → Result ContractError A) {z : A}
    → (r >>= f) ≡ ok z
    → ((c : PointerRecord) → r ≡ ok c → f c ≡ ok z → g c ≡ ok z)
    → (r >>= g) ≡ ok z
bind_keep (ok c) f g h k = k c refl h
bind_keep (err e) f g h k = cc

bind_swap :
    {A : Type 0} (best : Option PointerRecord)
    (loop : Option PointerRecord → List Bytes → Result ContractError A) (l : List Bytes)
    (ra rb : Result ContractError PointerRecord) {z : A}
    → KeptIsTyped best
    → ((c : PointerRecord) → ra ≡ ok c → IsTyped c)
    → ((c : PointerRecord) → rb ≡ ok c → IsTyped c)
    → (ra >>= λ a. rb >>= λ b. loop (some (merge (join best a) b)) l) ≡ ok z
    → (rb >>= λ b. ra >>= λ a. loop (some (merge (join best b) a)) l) ≡ ok z
bind_swap best loop l (ok a) (ok b) t u v h = rw (join_swap best b a t (v b refl) (u a refl)) h
bind_swap best loop l (ok a) (err e) t u v h = cc
bind_swap best loop l (err e) rb t u v h = cc

last-ok :
    {R : Type 0} {c r : R} (u : Result PointerError (Unit {0}))
    → (u >>= λ _. ok c) ≡ ok r
    → (c ≡ r) × (u ≡ ok tt)
last-ok (ok tt) h = (cc, refl)
last-ok (err e) h = cc

chain-ok :
    {P R : Type 0} (p : Result PointerError P) (d : Result PointerError R)
    (v : R → P → Result PointerError (Unit {0})) {r : R}
    → (p >>= λ x. d >>= λ c. v c x >>= λ _. ok c) ≡ ok r
    → (d ≡ ok r) × (x : P) × (p ≡ ok x) × (v r x ≡ ok tt)
chain-ok (ok x) (ok c) v h =
    let (same, good) = last-ok (v c x) h in
    (ap ok same, x, refl, subst (λ z. v z x ≡ ok tt) same good)
chain-ok (ok x) (err e) v h = cc
chain-ok (err e) d v h = cc

pub decode_verified-ok :
    (ed : Ed25519) (bytes params : Bytes) (r : PointerRecord)
    → decode_verified ed bytes params ≡ ok r
    → (decode bytes ≡ ok r)
      × (p : PointerParams ed) × (parse ed params ≡ ok p)
      × (verify ed r params p.author_vk ≡ ok tt)
unfolding decode_verified
decode_verified-ok ed bytes params r h =
    chain-ok (parse ed params) (decode bytes) (λ c parsed. verify ed c params parsed.author_vk) h

kept-KeptIsTyped :
    (ed : Ed25519) (bytes params : Bytes)
    → IsBytes bytes
    → KeptIsTyped (ok_of (decode_verified ed bytes params))
kept-KeptIsTyped ed bytes params h = go (decode_verified ed bytes params) refl
  where
    go :
        (r : Result PointerError PointerRecord)
        → decode_verified ed bytes params ≡ r
        → KeptIsTyped (ok_of r)
    go (err e) q = tt
    go (ok r) q = decode-IsTyped bytes r h (decode_verified-ok ed bytes params r q).0

module _ (ed : Ed25519) (params : Bytes) (author_vk : ed.VerifyingKey) where
  pub read-IsTyped :
      (bytes : Bytes) (r : PointerRecord)
      → IsBytes bytes
      → read ed params author_vk bytes ≡ ok r
      → IsTyped r
  unfolding read
  read-IsTyped bytes r h e = decode-IsTyped bytes r h (ground arith)

  merge_all-perm :
      {bs cs : List Bytes} (p : Permᴰ bs cs) (best x : Option PointerRecord)
      → All IsBytes bs
      → KeptIsTyped best
      → merge_all ed params author_vk best bs ≡ ok x
      → merge_all ed params author_vk best cs ≡ ok x
  unfolding merge_all
  merge_all-perm Permᴰ.nil best x h t e = e
  merge_all-perm (Permᴰ.cons {a = a} q p) best x h t e = rw (← q) (
      bind_keep (read ed params author_vk a) _ _ e (λ r got e'.
        merge_all-perm p (some (join best r)) x h.1
          (join-IsTyped best r t (read-IsTyped a r h.0 got)) e'))
  merge_all-perm (Permᴰ.swap {a = a} {b = b} {l = l} q r) best x h t e =
      rw (← q, ← r)
        (bind_swap best (merge_all ed params author_vk) l (read ed params author_vk a)
          (read ed params author_vk b) t (λ c got. read-IsTyped a c h.0 got)
          (λ c got. read-IsTyped b c h.1.0 got) e)
  merge_all-perm (Permᴰ.trans p q) best x h t e =
      merge_all-perm q best x (All-perm IsBytes p h) t (merge_all-perm p best x h t e)

module _ (ed : Ed25519) (params bytes : Bytes) (us vs : List UpdateData) where
  -- Where the state and the candidates are bytes, an update that succeeds also succeeds, with the
  -- same new state, if the same candidates are offered in any other order.
  pub update_state-order :
      (out : Bytes)
      → IsBytes bytes
      → All IsBytes (offered us)
      → Permᴰ (offered us) (offered vs)
      → update_state ed params bytes us ≡ some (ok out)
      → update_state ed params bytes vs ≡ some (ok out)
  unfolding update_promise
  update_state-order out hb ho p h =
      update_state-eq-promise ed params bytes vs
      ∙ ap some
          (go (parse ed params) (unwrap (sym (update_state-eq-promise ed params bytes us) ∙ h)))
    where
      Kept : Option PointerRecord
      Kept = ok_of (decode_verified ed bytes params)

      last :
          (vk : ed.VerifyingKey) (m : Result ContractError (Option PointerRecord))
          → merge_all ed params vk Kept (offered us) ≡ m
          → (m >>= result) ≡ ok out
          → (merge_all ed params vk Kept (offered vs) >>= result) ≡ ok out
      last vk (err e) q k = cc
      last vk (ok x) q k =
          rw (merge_all-perm ed params vk p Kept x ho (kept-KeptIsTyped ed bytes params hb) q) k

      go :
          (r : Result PointerError (PointerParams ed))
          → (map_err contract_error r >>= λ parsed.
              (merge_all ed params parsed.author_vk Kept (offered us) >>= result))
            ≡ ok out
          → (map_err contract_error r >>= λ parsed.
              (merge_all ed params parsed.author_vk Kept (offered vs) >>= result))
            ≡ ok out
      go (err e) k = cc
      go (ok parsed) k = last parsed.author_vk _ refl k
