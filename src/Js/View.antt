-- ===== src/Js/View.antt =====
-- What a component shows, in order. Markup, icons and styles are left out; a control carries the event
-- that it raises, and `E` is the component's type of events.
use scrapydweb.Base.{
  Bool, true, false, Option, none, some, List, [], ◌∷◌, ◌++◌, Text, All, ◌≡◌, refl,
}

pub data Shown {ℓ} (E : Type ℓ) : Type ℓ where
  says : Text → Shown E
  badge : Text → Shown E
  -- no address when `encodeURIComponent` throws
  link : (label : Text) → (href : Option Text) → Shown E
  -- a link with a handler of its own
  jump : (label : Text) → (href : Option Text) → E → Shown E
  button : (label : Text) → (is_enabled : Bool) → E → Shown E
  input : (value : Text) → (is_enabled : Bool) → (Text → E) → Shown E
  choice : (value : Text) → (options : List Text) → (is_enabled : Bool) → (Text → E) → Shown E
  toggle : (label : Text) → (is_checked : Bool) → (Bool → E) → Shown E

-- `{test && …}`
abbrev pub when {ℓ} : {A : Type ℓ} → Bool → List A → List A
when true xs = xs
when false xs = []

-- `{value && …}` of a text that may be absent
abbrev pub when_some {ℓ κ} : {A : Type ℓ} {B : Type κ} → Option A → (A → List B) → List B
when_some none f = []
when_some (some a) f = f a

abbrev pub concat_map {ℓ κ} : {A : Type ℓ} {B : Type κ} → (A → List B) → List A → List B
concat_map f [] = []
concat_map f (x ∷ xs) = f x ++ concat_map f xs

abbrev pub IfEnabled {κ} : Bool → Type κ → Type κ
IfEnabled true A = A
IfEnabled false A = Unit

pub enabled {κ} : {A : Type κ} (b : Bool) → (b ≡ true → A) → IfEnabled b A
enabled true f = f refl
enabled false f = tt

module _ {ℓ κ} {A : Type ℓ} (P : A → Type κ) where
  pub All-append : (xs ys : List A) → All P xs → All P ys → All P (xs ++ ys)
  All-append [] ys h k = k
  All-append (x ∷ xs) ys h k = (h.0, All-append xs ys h.1 k)

  pub All-when : (b : Bool) (xs : List A) → (b ≡ true → All P xs) → All P (when b xs)
  All-when true xs h = h refl
  All-when false xs h = tt

module _ {ℓ κ μ} {A : Type ℓ} {B : Type μ} (P : B → Type κ) where
  pub All-when_some :
      (f : A → List B) (o : Option A) → ((a : A) → All P (f a)) → All P (when_some o f)
  All-when_some f none h = tt
  All-when_some f (some a) h = h a

  pub All-concat_map :
      (f : A → List B) (xs : List A) → ((a : A) → All P (f a)) → All P (concat_map f xs)
  All-concat_map f [] h = tt
  All-concat_map f (x ∷ xs) h = All-append P (f x) (concat_map f xs) (h x) (All-concat_map f xs h)

module _ {ℓ κ} {E : Type ℓ} (P : E → Type κ) where
  -- Each event that the item can raise is in `P`.
  abbrev pub Raises : Shown E → Type κ
  Raises (Shown.says t) = Unit
  Raises (Shown.badge t) = Unit
  Raises (Shown.link l h) = Unit
  Raises (Shown.jump l h e) = P e
  Raises (Shown.button l b e) = IfEnabled b (P e)
  Raises (Shown.input v b f) = IfEnabled b ((t : Text) → P (f t))
  Raises (Shown.choice v o b f) = IfEnabled b ((t : Text) → P (f t))
  Raises (Shown.toggle l c f) = (b : Bool) → P (f b)

  pub Raises-append :
      (xs ys : List (Shown E)) → All Raises xs → All Raises ys → All Raises (xs ++ ys)
  Raises-append xs ys h k = All-append Raises xs ys h k

  pub Raises-when :
      (b : Bool) (xs : List (Shown E)) → (b ≡ true → All Raises xs) → All Raises (when b xs)
  Raises-when b xs h = All-when Raises b xs h

  pub Raises-when_some {μ} :
      {A : Type μ} (f : A → List (Shown E)) (o : Option A)
      → ((a : A) → All Raises (f a))
      → All Raises (when_some o f)
  Raises-when_some f o h = All-when_some Raises f o h

  pub Raises-map {μ} :
      {A : Type μ} (f : A → List (Shown E)) (xs : List A)
      → ((a : A) → All Raises (f a))
      → All Raises (concat_map f xs)
  Raises-map f xs h = All-concat_map Raises f xs h

-- Each event that the item can raise is in `P`, with the item's label, which is empty for an input and a
-- choice.
abbrev pub Labelled {ℓ κ} : {E : Type ℓ} → (Text → E → Type κ) → Shown E → Type κ
Labelled P (Shown.says t) = Unit
Labelled P (Shown.badge t) = Unit
Labelled P (Shown.link l h) = Unit
Labelled P (Shown.jump l h e) = P l e
Labelled P (Shown.button l b e) = IfEnabled b (P l e)
Labelled P (Shown.input v b f) = IfEnabled b ((t : Text) → P [] (f t))
Labelled P (Shown.choice v o b f) = IfEnabled b ((t : Text) → P [] (f t))
Labelled P (Shown.toggle l c f) = (b : Bool) → P l (f b)

-- What holds of each event raised may be replaced by what follows from it.
module _ {ℓ κ μ} {E : Type ℓ} {P : E → Type κ} {Q : E → Type μ} (f : (e : E) → P e → Q e) where
  if_enabled-weaker : {A : Type κ} {B : Type μ} (b : Bool) → (A → B) → IfEnabled b A → IfEnabled b B
  if_enabled-weaker true g h = g h
  if_enabled-weaker false g h = tt

  item-weaker : (x : Shown E) → Raises P x → Raises Q x
  item-weaker (Shown.says t) h = tt
  item-weaker (Shown.badge t) h = tt
  item-weaker (Shown.link l a) h = tt
  item-weaker (Shown.jump l a e) h = f e h
  item-weaker (Shown.button l b e) h = if_enabled-weaker b (f e) h
  item-weaker (Shown.input v b g) h = if_enabled-weaker b (λ k t. f (g t) (k t)) h
  item-weaker (Shown.choice v o b g) h = if_enabled-weaker b (λ k t. f (g t) (k t)) h
  item-weaker (Shown.toggle l c g) h = λ b. f (g b) (h b)

  pub Raises-weaker : (xs : List (Shown E)) → All (Raises P) xs → All (Raises Q) xs
  Raises-weaker [] h = tt
  Raises-weaker (x ∷ xs) h = (item-weaker x h.0, Raises-weaker xs h.1)
