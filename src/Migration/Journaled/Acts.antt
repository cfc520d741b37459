-- ===== src/Migration/Journaled/Acts.antt =====
-- The code of freenet-migrate/src/delegate_migrate.rs that can fail, on a state: what it leaves and yields.
use freenet_migrate.Prelude.{Bytes}
use freenet_migrate.Prelude.Result.{Result, ok, err}
use freenet_migrate.Migration.Journaled.{JournalError, Act, ◌>>=◌, or_fail}

-- The code leaves the state safe, whatever it returns.
abbrev pub Preserves : {S A : Type 0} → (S → Type 0) → Act S A → Type 0
Preserves {S} Safe m = (s : S) → Safe s → Safe (m s).0

pub Preserves-bind :
    {S A B : Type 0} (Safe : S → Type 0) (m : Act S A) (f : A → Act S B)
    → Preserves Safe m
    → ((a : A) → Preserves Safe (f a))
    → Preserves Safe (m >>= f)
unfolding ◌>>=◌
Preserves-bind {S} {A} {B} Safe m f h k s x = go (m s) (h s x)
  where
    go :
        (r : S × Result JournalError A)
        → Safe r.0
        → let out : S × Result JournalError B = elim r.1 [
          | ok a ↦ f a r.0
          | err e ↦ (r.0, err e)
        ] in
          Safe out.0
    go (t, ok a) y = k a t y
    go (t, err e) y = y

pub Preserves-or_fail :
    {S A : Type 0} (Safe : S → Type 0) (text : Bytes → JournalError) (call : S → S × Result Bytes A)
    → ((s : S) → Safe s → Safe (call s).0)
    → Preserves Safe (or_fail text call)
Preserves-or_fail {S} {A} Safe text call h s x = go (call s) (h s x)
  where
    go :
        (r : S × Result Bytes A)
        → Safe r.0
        → let out : S × Result JournalError A = elim r.1 [
          | ok a ↦ (r.0, ok a)
          | err e ↦ (r.0, err (text e))
        ] in
          Safe out.0
    go (t, ok a) y = y
    go (t, err e) y = y

-- The code leaves the state safe, and what it returns satisfies `Post`.
abbrev pub Outcome :
    {S A : Type 0} → (S → Type 0) → (A → Type 0) → S × Result JournalError A → Type 0
Outcome Safe Post (t, ok a) = Safe t × Post a
Outcome Safe Post (t, err e) = Safe t

abbrev pub Yields : {S A : Type 0} → (S → Type 0) → (A → Type 0) → Act S A → Type 0
Yields {S} Safe Post m = (s : S) → Safe s → Outcome Safe Post (m s)

pub Yields-bind :
    {S A B : Type 0} (Safe : S → Type 0) (Mid : A → Type 0) (Post : B → Type 0) (m : Act S A)
    (f : A → Act S B)
    → Yields Safe Mid m
    → ((a : A) → Mid a → Yields Safe Post (f a))
    → Yields Safe Post (m >>= f)
unfolding ◌>>=◌
Yields-bind {S} {A} {B} Safe Mid Post m f h k s x = go (m s) (h s x)
  where
    go :
        (r : S × Result JournalError A)
        → Outcome Safe Mid r
        → let out : S × Result JournalError B = elim r.1 [
          | ok a ↦ f a r.0
          | err e ↦ (r.0, err e)
        ] in
          Outcome Safe Post out
    go (t, ok a) (y, mid) = k a mid t y
    go (t, err e) y = y

pub Yields-anything :
    {S A : Type 0} (Safe : S → Type 0) (m : Act S A) → Preserves Safe m → Yields Safe (λ a. Unit) m
Yields-anything {S} {A} Safe m h s x = go (m s) (h s x)
  where
    go : (r : S × Result JournalError A) → Safe r.0 → Outcome Safe (λ a. Unit) r
    go (t, ok a) y = (y, tt)
    go (t, err e) y = y

pub Outcome-safe :
    {S A : Type 0} (Safe : S → Type 0) (Post : A → Type 0) (r : S × Result JournalError A)
    → Outcome Safe Post r
    → Safe r.0
Outcome-safe Safe Post (t, ok a) h = h.0
Outcome-safe Safe Post (t, err e) h = h
