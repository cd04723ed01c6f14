-- ===== src/Adapter/Caching.antt =====
-- adapter/error.hpp: the text that `to_string` keeps is the one of the error as it is.
use rediscoro.Prelude.{
  codes, ◌≡◌, refl, sym, ap, subst, ℕ, Option, ◌++◌, ◌∙◌, List, [], ◌∷◌, ◌⊎◌, inl, inr, some, none,
}
use rediscoro.Adapter.Error.{
  Error, PathElement, prepend_path, to_string, format_message, kind_text, path_to_string,
}
use rediscoro.Errors.{AdapterErrc}

-- No text is kept, or the right one is.
abbrev pub IsCoherent : Error → Type 0
IsCoherent e = (e.cached_message ≡ none) ⊎ (e.cached_message ≡ some (format_message e))

-- What is done with an error on its way to the reply: a longer path, or its text asked for.
pub data Act : Type 0 where
  prepend : PathElement → Act
  print : Act

pub act : Act → Error → Error
act (prepend el) e = prepend_path el e
act print e = (to_string e).1

pub acts : List Act → Error → Error
unfolding act
acts [] e = e
acts (a ∷ todo) e = acts todo (act a e)

kind_text-cached :
    (k : AdapterErrc) (e : Error) (o : Option (List ℕ))
    → kind_text k (record e { cached_message = o }) ≡ kind_text k e
unfolding kind_text
kind_text-cached AdapterErrc.type_mismatch e o = refl
kind_text-cached AdapterErrc.unexpected_null e o = refl
kind_text-cached AdapterErrc.value_out_of_range e o = refl
kind_text-cached AdapterErrc.duplicate_key e o = refl
kind_text-cached AdapterErrc.size_mismatch e o = refl

format_message-cached :
    (e : Error) (o : Option (List ℕ))
    → format_message (record e { cached_message = o }) ≡ format_message e
unfolding format_message
format_message-cached e o =
    ap (λ t. codes "$" ++ path_to_string e.path ++ t) (kind_text-cached e.kind e o)

abbrev Printed : Error → Type 0
Printed e = ((to_string e).0 ≡ format_message e) × IsCoherent (to_string e).1

none-Printed : (e : Error) → Printed (record e { cached_message = none })
unfolding to_string
none-Printed e =
    let bare = format_message (record e { cached_message = none }) in
    (refl, inr (ap some (format_message-cached e none ∙ sym (format_message-cached e (some bare)))))

some-Printed :
    (e : Error) (t : List ℕ) → t ≡ format_message e → Printed (record e { cached_message = some t })
unfolding to_string
some-Printed e t h =
    let same = h ∙ sym (format_message-cached e (some t)) in (same, inr (ap some same))

to_string-Printed : (e : Error) → IsCoherent e → Printed e
to_string-Printed e (inl nothing) =
    subst Printed (ap (λ o. record e { cached_message = o }) (sym nothing)) (none-Printed e)
to_string-Printed e (inr kept) =
    subst Printed (ap (λ o. record e { cached_message = o }) (sym kept))
      (some-Printed e (format_message e) refl)

acts-IsCoherent : (todo : List Act) (e : Error) → IsCoherent e → IsCoherent (acts todo e)
unfolding acts act prepend_path
acts-IsCoherent [] e h = h
acts-IsCoherent (prepend el ∷ todo) e h = acts-IsCoherent todo (prepend_path el e) (inl refl)
acts-IsCoherent (print ∷ todo) e h = acts-IsCoherent todo (to_string e).1 (to_string-Printed e h).1

-- Where an error starts without a text kept, to_string gives the text of the error as it is, however often
-- the path was made longer and the text was asked for before.
pub to_string-acts :
    (todo : List Act) (e : Error)
    → e.cached_message ≡ none
    → (to_string (acts todo e)).0 ≡ format_message (acts todo e)
to_string-acts todo e h = (to_string-Printed (acts todo e) (acts-IsCoherent todo e (inl h))).0
