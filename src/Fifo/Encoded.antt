-- ===== src/Fifo/Encoded.antt =====
-- A queue of byte strings inside a larger state, used for values of a type: each value goes
-- through its bytes.
use mathlib.Core.Option
use mathlib.Core.Path.{subst}
use qemu_vcs.Base.{
  ℕ, ◌≡◌, refl, sym, ap, ap₂, ◌∙◌, Option, none, some, List, [], ◌∷◌, map, map-append, length, ◌==◌,
  length-map, Bool-cases, inl, inr,
}
use qemu_vcs.Fifo.{put, get, Impl}

-- How a value is written and read, and which values the bytes give back.
pub record Coding (A : Type 0) : Type 1 where
  pub encode : A → List ℕ
  pub decode : List ℕ → A
  pub Fits : A → Type 0
  pub decode_lem : (x : A) → Fits x → decode (encode x) ≡ x

-- A part of a state.
pub record Part (S R : Type 0) : Type 0 where
  pub part : S → R
  pub put_part : S → R → S
  pub part-put_part : (s : S) (r : R) → part (put_part s r) ≡ r

module _ {A B : Type 0} (f : B → A) where
  pub put-map :
      (n : ℕ) (q : List B) (x : B) → Option.map (map f) (put n q x) ≡ put n (map f q) (f x)
  unfolding put
  put-map n q x = elim (Bool-cases (length q == n)) [
    | inl full ↦ rw full (sym (rw (ap (λ k. k == n) (length-map f q) ∙ full) refl))
    | inr room ↦ rw room (
        ap some (map-append f q (x ∷ []))
        ∙ sym (rw (ap (λ k. k == n) (length-map f q) ∙ room) refl))
  ]

  pub get-map :
      (q : List B) → Option.map (λ (p : B × List B). (f p.0, map f p.1)) (get q) ≡ get (map f q)
  unfolding get
  get-map [] = refl
  get-map (x ∷ q) = refl

module _ {A S : Type 0} (q : Impl (List ℕ)) (c : Coding A) (p : Part S (q.State)) where
  -- What a receive makes of the bytes and the part that are left to it.
  abbrev pub received : S → List ℕ × q.State → A × S
  received s (bytes, r) = (c.decode bytes, p.put_part s r)

  -- The calls on the part.
  abbrev pub enqueue_as : S → A → Option S
  enqueue_as s x = Option.map (p.put_part s) (q.enqueue (p.part s) (c.encode x))

  abbrev pub dequeue_as : S → Option (A × S)
  dequeue_as s = Option.map (received s) (q.dequeue (p.part s))

  abbrev pub decoded : List ℕ × List (List ℕ) → A × List A
  decoded (x, l) = (c.decode x, map c.decode l)

  abbrev pub values : S → List A
  values s = map c.decode (q.contents (p.part s))

  pub after_put :
      (s : S) (x : A) (o : Option (q.State)) (l : Option (List (List ℕ)))
      → Option.map q.contents o ≡ l
      → Option.map values (Option.map (p.put_part s) o) ≡ Option.map (map c.decode) l
  after_put s x none none e = refl
  after_put s x none (some l) e = absurd cc
  after_put s x (some r) none e = absurd cc
  after_put s x (some r) (some l) e =
      let same : q.contents r ≡ l = cc in
      ap (λ t. some (map c.decode (q.contents t))) (p.part-put_part s r)
      ∙ ap (λ t. some (map c.decode t)) same

  pub after_get :
      (s : S) (o : Option (List ℕ × q.State)) (l : Option (List ℕ × List (List ℕ)))
      → Option.map (λ (r : List ℕ × q.State). (r.0, q.contents r.1)) o ≡ l
      → Option.map (λ (r : A × S). (r.0, values r.1)) (Option.map (received s) o)
        ≡ Option.map decoded l
  after_get s none none e = refl
  after_get s none (some l) e = absurd cc
  after_get s (some r) none e = absurd cc
  after_get s (some (x, r)) (some (y, l)) e =
      let first : x ≡ y = cc in
      let same : q.contents r ≡ l = cc in
      ap (λ t. some (decoded (x, q.contents t))) (p.part-put_part s r)
      ∙ ap₂ (λ t u. some (decoded (t, u))) first same

  pub valid_put :
      (s : S) (o : Option (q.State)) {s' : S}
      → ((r : q.State) → o ≡ some r → q.IsValid r)
      → Option.map (p.put_part s) o ≡ some s'
      → q.IsValid (p.part s')
  valid_put s none v e = absurd cc
  valid_put s (some r) {s'} v e =
      let same : p.put_part s r ≡ s' = cc in
      subst q.IsValid (sym (p.part-put_part s r) ∙ ap p.part same) (v r refl)

  pub valid_get :
      (s : S) (o : Option (List ℕ × q.State)) {x : A} {s' : S}
      → ((b : List ℕ) (r : q.State) → o ≡ some (b, r) → q.IsValid r)
      → Option.map (received s) o ≡ some (x, s')
      → q.IsValid (p.part s')
  valid_get s none v e = absurd cc
  valid_get s (some (b, r)) {s' = s'} v e =
      let same : p.put_part s r ≡ s' = cc in
      subst q.IsValid (sym (p.part-put_part s r) ∙ ap p.part same) (v b r refl)

  -- The part with its coding is again a queue.
  abbrev pub encoded : ((x : A) → c.Fits x → q.Accepts (c.encode x)) → Impl A
  encoded accepts = record {
    State = S;
    IsValid = λ s. q.IsValid (p.part s);
    Accepts = c.Fits;
    limit = q.limit;
    contents = values;
    enqueue = enqueue_as;
    dequeue = dequeue_as;
    enqueue_valid = λ s x v a e.
        valid_put s (q.enqueue (p.part s) (c.encode x))
          (λ r h. q.enqueue_valid (p.part s) (c.encode x) v (accepts x a) h) e;
    dequeue_valid =
        λ s v e. valid_get s (q.dequeue (p.part s)) (λ b r h. q.dequeue_valid (p.part s) v h) e;
    enqueue_refines = λ s x v a.
        after_put s x (q.enqueue (p.part s) (c.encode x)) _
          (q.enqueue_refines (p.part s) (c.encode x) v (accepts x a))
        ∙ put-map c.decode q.limit (q.contents (p.part s)) (c.encode x)
        ∙ ap (put q.limit (values s)) (c.decode_lem x a);
    dequeue_refines = λ s v.
        after_get s (q.dequeue (p.part s)) _ (q.dequeue_refines (p.part s) v)
        ∙ get-map c.decode (q.contents (p.part s));
  }
