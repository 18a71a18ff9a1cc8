-- ===== src/Options.antt =====
-- `Options` of src/cli/main.cpp: the `--key value` parser. A slot of the table is a Key, which stands
-- for a member of the class and its text.
pub mod Parse
use route_engine_cpp.Shared.{
  List, [], ◌∷◌, Bool, true, false, not, ◌&&◌, ◌||◌, if◌then◌else◌, Option, none, some,
}
use route_engine_cpp.Fields.{Text, codes, is_nil, equals, starts_with}

pub data Key : Type 0 where
  nodes_key edges_key from_key to_key algorithm_key width_key height_key : Key
  seed_key spacing_key jitter_key diagonal_rate_key queries_key repetitions_key : Key

pub record Options : Type 0 where
  pub nodes : Text
  pub edges : Text
  pub from : Text
  pub to : Text
  pub algorithm : Text
  pub width : Text
  pub height : Text
  pub seed : Text
  pub spacing : Text
  pub jitter : Text
  pub diagonal_rate : Text
  pub queries : Text
  pub repetitions : Text
  pub force : Bool

abbrev pub no_options : Options
no_options = record {
  nodes = [];
  edges = [];
  from = [];
  to = [];
  algorithm = [];
  width = [];
  height = [];
  seed = [];
  spacing = [];
  jitter = [];
  diagonal_rate = [];
  queries = [];
  repetitions = [];
  force = false;
}

-- The order of the table.
abbrev pub keys : List Key
keys =
    nodes_key ∷ edges_key ∷ from_key ∷ to_key ∷ algorithm_key ∷ width_key ∷ height_key ∷ seed_key
    ∷ spacing_key ∷ jitter_key ∷ diagonal_rate_key ∷ queries_key ∷ repetitions_key ∷ []

abbrev pub key_text : Key → Text
key_text nodes_key = codes "--nodes"
key_text edges_key = codes "--edges"
key_text from_key = codes "--from"
key_text to_key = codes "--to"
key_text algorithm_key = codes "--algorithm"
key_text width_key = codes "--width"
key_text height_key = codes "--height"
key_text seed_key = codes "--seed"
key_text spacing_key = codes "--spacing"
key_text jitter_key = codes "--jitter"
key_text diagonal_rate_key = codes "--diagonal-rate"
key_text queries_key = codes "--queries"
key_text repetitions_key = codes "--repetitions"

-- The member of a slot, read and written.
abbrev pub get : Key → Options → Text
get nodes_key o = o.nodes
get edges_key o = o.edges
get from_key o = o.from
get to_key o = o.to
get algorithm_key o = o.algorithm
get width_key o = o.width
get height_key o = o.height
get seed_key o = o.seed
get spacing_key o = o.spacing
get jitter_key o = o.jitter
get diagonal_rate_key o = o.diagonal_rate
get queries_key o = o.queries
get repetitions_key o = o.repetitions

abbrev pub put : Key → Text → Options → Options
put nodes_key t o = record o { nodes = t }
put edges_key t o = record o { edges = t }
put from_key t o = record o { from = t }
put to_key t o = record o { to = t }
put algorithm_key t o = record o { algorithm = t }
put width_key t o = record o { width = t }
put height_key t o = record o { height = t }
put seed_key t o = record o { seed = t }
put spacing_key t o = record o { spacing = t }
put jitter_key t o = record o { jitter = t }
put diagonal_rate_key t o = record o { diagonal_rate = t }
put queries_key t o = record o { queries = t }
put repetitions_key t o = record o { repetitions = t }

-- The messages about the options.
pub data OptionError : Type 0 where
  unexpected_argument given_twice unknown_option value_missing value_empty : Text → OptionError
  not_accepted : Text → OptionError

pub data Parsed : Type 0 where
  parsed : Options → Parsed
  refused : OptionError → Parsed

unfoldable pub slot_in : List Key → Text → Option Key
unfolding equals
slot_in [] text = none
slot_in (k ∷ ks) text =
    let rest = slot_in ks text in if equals (key_text k) text then some k else rest

abbrev pub slot_for : Text → Option Key
slot_for = slot_in keys

abbrev pub force_text : Text
force_text = codes "--force"

-- `--force`, with what follows it.
abbrev pub flag : Options → Parsed → Parsed
flag o rest = if o.force then refused (given_twice force_text) else rest

-- An option with its value, and what follows them.
abbrev pub store : Text → Text → Options → Option Key → (Key → Parsed) → Parsed
store key value o none rest = refused (unknown_option key)
store key value o (some k) rest =
    if not (is_nil (get k o))
    then refused (given_twice key)
    else if is_nil value
    then refused (value_empty key)
    else rest k

-- An option at the end of the arguments.
abbrev pub end : Text → Option Key → Parsed
end key none = refused (unknown_option key)
end key (some k) = refused (value_missing key)

unfoldable pub parse : List Text → Options → Parsed
unfolding slot_in
parse [] o = parsed o
parse (key ∷ []) o =
    if not (starts_with (codes "--") key)
    then refused (unexpected_argument key)
    else if equals key force_text
    then flag o (parsed (record o { force = true }))
    else end key (slot_for key)
parse (key ∷ value ∷ rest) o =
    let flagged = parse (value ∷ rest) (record o { force = true }) in
    let stored = λ (k : Key). parse rest (put k value o) in
    if not (starts_with (codes "--") key)
    then refused (unexpected_argument key)
    else if equals key force_text
    then flag o flagged
    else store key value o (slot_for key) stored

abbrev pub is_listed : List Text → Text → Bool
is_listed [] text = false
is_listed (key ∷ accepted) text = equals key text || is_listed accepted text

-- The loop of `reject_unaccepted`; its `command` only labels the message.
unfoldable pub first_unaccepted : List Key → List Text → Options → Option OptionError
unfolding equals
first_unaccepted [] accepted o = none
first_unaccepted (k ∷ ks) accepted o =
    let rest = first_unaccepted ks accepted o in
    if is_nil (get k o) || is_listed accepted (key_text k)
    then rest
    else some (not_accepted (key_text k))

abbrev pub or_force : Option OptionError → Bool → Option OptionError
or_force (some e) bad = some e
or_force none bad = if bad then some (not_accepted force_text) else none

unfoldable pub reject_unaccepted : List Text → Bool → Options → Option OptionError
unfolding first_unaccepted
reject_unaccepted accepted accepts_force o =
    or_force (first_unaccepted keys accepted o) (o.force && not accepts_force)
