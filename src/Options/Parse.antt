-- ===== src/Options/Parse.antt =====
-- The parser of src/cli/main.cpp: it reads back every set of options, and `reject_unaccepted` lets
-- through exactly the options that a command takes.
use route_engine_cpp.Shared.{
  ◌≡◌, refl, sym, ap, ◌∙◌, ◌↔◌, List, [], ◌∷◌, Bool, true, false, not, ◌||◌, ◌&&◌, arith, All,
  if◌then◌else◌, none, some, ◌⊎◌, inl, inr, Bool-cases, Option, Memᴰ,
}
use mathlib.Core.List.Memᴰ
use route_engine_cpp.Fields.{Text, is_nil, equals, equals_iff}
use route_engine_cpp.Options.{
  Key, nodes_key, edges_key, from_key, to_key, algorithm_key, width_key, height_key, seed_key,
  spacing_key, jitter_key, diagonal_rate_key, queries_key, repetitions_key, Options, no_options,
  keys, key_text, get, put, parse, parsed, force_text, is_listed, first_unaccepted,
  reject_unaccepted, OptionError, or_force,
}

-- The arguments that give an option its value, if it has one.
abbrev pub argument : Key → Text → List Text → List Text
argument k [] rest = rest
argument k (c ∷ t) rest = key_text k ∷ (c ∷ t) ∷ rest

abbrev arguments : List Key → Options → List Text → List Text
arguments [] o rest = rest
arguments (k ∷ ks) o rest = argument k (get k o) (arguments ks o rest)

-- The command line of a set of options.
unfoldable pub render : Options → List Text
render o = arguments keys o (if o.force then force_text ∷ [] else [])

put-nil : (k : Key) (o : Options) → get k o ≡ [] → o ≡ put k [] o
put-nil nodes_key o e = λ i. record o { nodes = e i }
put-nil edges_key o e = λ i. record o { edges = e i }
put-nil from_key o e = λ i. record o { from = e i }
put-nil to_key o e = λ i. record o { to = e i }
put-nil algorithm_key o e = λ i. record o { algorithm = e i }
put-nil width_key o e = λ i. record o { width = e i }
put-nil height_key o e = λ i. record o { height = e i }
put-nil seed_key o e = λ i. record o { seed = e i }
put-nil spacing_key o e = λ i. record o { spacing = e i }
put-nil jitter_key o e = λ i. record o { jitter = e i }
put-nil diagonal_rate_key o e = λ i. record o { diagonal_rate = e i }
put-nil queries_key o e = λ i. record o { queries = e i }
put-nil repetitions_key o e = λ i. record o { repetitions = e i }

-- An option that is not set yet is stored.
parse-argument :
    (k : Key) (t : Text) (rest : List Text) (o : Options)
    → get k o ≡ []
    → parse (argument k t rest) o ≡ parse rest (put k t o)
unfolding parse
parse-argument k [] rest o e = ap (parse rest) (put-nil k o e)
parse-argument nodes_key (c ∷ t) rest o e = rw e refl
parse-argument edges_key (c ∷ t) rest o e = rw e refl
parse-argument from_key (c ∷ t) rest o e = rw e refl
parse-argument to_key (c ∷ t) rest o e = rw e refl
parse-argument algorithm_key (c ∷ t) rest o e = rw e refl
parse-argument width_key (c ∷ t) rest o e = rw e refl
parse-argument height_key (c ∷ t) rest o e = rw e refl
parse-argument seed_key (c ∷ t) rest o e = rw e refl
parse-argument spacing_key (c ∷ t) rest o e = rw e refl
parse-argument jitter_key (c ∷ t) rest o e = rw e refl
parse-argument diagonal_rate_key (c ∷ t) rest o e = rw e refl
parse-argument queries_key (c ∷ t) rest o e = rw e refl
parse-argument repetitions_key (c ∷ t) rest o e = rw e refl

-- The flag at the end of the arguments.
flagged :
    (o : Options) (b : Bool)
    → o.force ≡ false
    → parse (if b then force_text ∷ [] else []) o ≡ parsed (record o { force = b })
unfolding parse equals
flagged o true e = rw e refl
flagged o false e = ap parsed (λ i. record o { force = e i })

-- Parsing the arguments of a set of options, empty ones left out and `--force` last, gives the set back.
pub parse-render : (o : Options) → parse (render o) no_options ≡ parsed o
unfolding render
parse-render o =
    parse-argument nodes_key _ _ _ refl
    ∙ parse-argument edges_key _ _ _ refl
    ∙ parse-argument from_key _ _ _ refl
    ∙ parse-argument to_key _ _ _ refl
    ∙ parse-argument algorithm_key _ _ _ refl
    ∙ parse-argument width_key _ _ _ refl
    ∙ parse-argument height_key _ _ _ refl
    ∙ parse-argument seed_key _ _ _ refl
    ∙ parse-argument spacing_key _ _ _ refl
    ∙ parse-argument jitter_key _ _ _ refl
    ∙ parse-argument diagonal_rate_key _ _ _ refl
    ∙ parse-argument queries_key _ _ _ refl
    ∙ parse-argument repetitions_key _ _ _ refl
    ∙ flagged _ o.force refl

IsAllowed : List Text → Options → Key → Type 0
IsAllowed accepted o k = (get k o ≡ []) ⊎ Memᴰ (key_text k) accepted

is_nil_iff : (t : Text) → (is_nil t ≡ true) ↔ (t ≡ [])
is_nil_iff [] = ground arith
is_nil_iff (c ∷ t) = ground arith

is_listed_iff : (accepted : List Text) (t : Text) → (is_listed accepted t ≡ true) ↔ Memᴰ t accepted
is_listed_iff [] t = (λ e. ground (arith, e), λ m. absurd (Memᴰ.not-nil m))
is_listed_iff (a ∷ accepted) t = (
  λ e. elim (Bool-cases (equals a t)) [
    | inl same ↦ Memᴰ.head (sym ((equals_iff a t).0 same))
    | inr differs ↦ Memᴰ.tail ((is_listed_iff accepted t).0 (ground (arith, e, differs)))
  ],
  λ m. elim (Memᴰ.cases_cons m) [
    | inl same ↦ let h : equals a t ≡ true = (equals_iff a t).1 (sym same) in ground (arith, h)
    | inr later ↦
        let h : is_listed accepted t ≡ true = (is_listed_iff accepted t).1 later in
        ground (arith, h)
  ],
)

IsAllowed-iff :
    (accepted : List Text) (o : Options) (k : Key)
    → ((is_nil (get k o) || is_listed accepted (key_text k)) ≡ true) ↔ IsAllowed accepted o k
unfolding IsAllowed
IsAllowed-iff accepted o k =
    ground (arith, is_nil_iff (get k o), is_listed_iff accepted (key_text k))

first_unaccepted_iff :
    (ks : List Key) (accepted : List Text) (o : Options)
    → (first_unaccepted ks accepted o ≡ none) ↔ All (IsAllowed accepted o) ks
unfolding first_unaccepted
first_unaccepted_iff [] accepted o = ground arith
first_unaccepted_iff (k ∷ ks) accepted o =
    ground (arith, IsAllowed-iff accepted o k, first_unaccepted_iff ks accepted o)

at_key : (P : Key → Type 0) → All P keys → (k : Key) → P k
at_key P h nodes_key = ground arith
at_key P h k = ground arith

every_key : (P : Key → Type 0) → ((k : Key) → P k) → All P keys
every_key P h = search (h)

or_force_iff :
    (found : Option OptionError) (bad : Bool)
    → (or_force found bad ≡ none) ↔ ((found ≡ none) × (bad ≡ false))
or_force_iff (some e) bad = ground arith
or_force_iff none true = ground arith
or_force_iff none false = ground arith

-- `reject_unaccepted` finds nothing exactly if every option with a value is in the command's list and
-- `--force` is given only where the command takes it.
pub reject_unaccepted_iff :
    (accepted : List Text) (accepts_force : Bool) (o : Options)
    → (reject_unaccepted accepted accepts_force o ≡ none) ↔ (
        ((k : Key) → (get k o ≡ []) ⊎ Memᴰ (key_text k) accepted)
        × (o.force ≡ true → accepts_force ≡ true))
unfolding reject_unaccepted IsAllowed
reject_unaccepted_iff accepted accepts_force o =
    let found = first_unaccepted_iff keys accepted o in
    let both = or_force_iff (first_unaccepted keys accepted o) (o.force && not accepts_force) in
    (
      λ e. (at_key _ (found.0 (both.0 e).0), λ f. let h = (both.0 e).1 in ground (arith, h, f)),
      λ (listed, f). both.1 (found.1 (every_key _ listed), ground (arith, f)),
    )
