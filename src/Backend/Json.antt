-- ===== src/Backend/Json.antt =====
-- Decoded JSON, and what Python's subscripts, `get` and loops do with it. An object has each key once.
use group_assessment_agent.Base.{
  ℕ, Text, ◌==◌, Bool, Option, none, some, List, [], ◌∷◌, if◌then◌else◌,
}
use group_assessment_agent.Exec.{Result, ok, raised}

mutual
  pub data Json : Type 0 where
    null : Json
    boolean : Bool → Json
    number : ℕ → Json
    text : Text → Json
    array : Items → Json
    object : Fields → Json

  pub data Items : Type 0 where
    no_items : Items
    item : Json → Items → Items

  pub data Fields : Type 0 where
    no_fields : Fields
    field : Text → Json → Fields → Fields

-- The exceptions that reading a reply may raise, beside those of the client.
pub data Malformed : Type 0 where
  value_error key_error type_error attribute_error : Malformed

module _ {A B : Type 0} where
  infixl 10 ◌>>=◌
  unfoldable pub ◌>>=◌ : Result Malformed A → (A → Result Malformed B) → Result Malformed B
  raised e >>= f = raised e
  ok a >>= f = f a

unfoldable pub lookup : Text → Fields → Option Json
lookup key no_fields = none
lookup key (field k v fs) = let rest = lookup key fs in if k == key then some v else rest

abbrev pub required : Option Json → Result Malformed Json
required none = raised key_error
required (some v) = ok v

-- `value[key]`, for a text key.
unfoldable pub subscript : Json → Text → Result Malformed Json
unfolding lookup
subscript (object fs) key = required (lookup key fs)
subscript _ key = raised type_error

abbrev pub defaulted : Json → Option Json → Json
defaulted default none = default
defaulted default (some v) = v

-- `value.get(key, default)`.
unfoldable pub get : Json → Text → Json → Result Malformed Json
unfolding lookup
get (object fs) key default = ok (defaulted default (lookup key fs))
get _ key default = raised attribute_error

abbrev pub is_text : Json → Text → Bool
is_text (text s) t = s == t
is_text _ t = Bool.false

module _ {A : Type 0} (read : Json → Result Malformed A) where
  abbrev and_rest : Result Malformed A → Result Malformed (List A) → Result Malformed (List A)
  and_rest (raised e) rest = raised e
  and_rest (ok a) (raised e) = raised e
  and_rest (ok a) (ok l) = ok (a ∷ l)

  unfoldable pub read_items : Items → Result Malformed (List A)
  read_items no_items = ok []
  read_items (item v vs) = and_rest (read v) (read_items vs)

  -- `[read(v) for v in value]`, where `read` subscripts its argument: the keys of an object and the
  -- characters of a text are texts, which have no such subscript.
  unfoldable pub comprehension : Json → Result Malformed (List A)
  unfolding read_items
  comprehension (array vs) = read_items vs
  comprehension (object no_fields) = ok []
  comprehension (text []) = ok []
  comprehension _ = raised type_error
