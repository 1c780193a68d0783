-- ===== src/Shared/Json/Postfix.antt =====
-- A concrete `Codec`: a value is written in postfix order, and read with a stack.
use ai_document_analysis.Prelude.{
  ℕ, ◌+◌, ◌-◌, ◌≡◌, ◌≢◌, refl, ap, ◌∙◌, inl, inr, true, false, Option, none, some, List, [], ◌∷◌,
  Text, All, is_empty, IsVisible, strip-visible, leb, nat_eq, arith, if◌then◌else◌,
}
use ai_document_analysis.Shared.Json.{
  Json, null, bool, number, other_number, str, arr, obj, Items, nil, cons, Fields, end, field,
}
use ai_document_analysis.Shared.Json.Codec.{Codec}

data Entry : Type 0 where
  text_entry : Text → Entry
  json_entry : Json → Entry
  items_entry : Items → Entry
  fields_entry : Fields → Entry

abbrev Stack : Type 0
Stack = List Entry

abbrev push_char : ℕ → Stack → Stack
push_char c (text_entry t ∷ stack) = text_entry (c ∷ t) ∷ stack
push_char c stack = []

abbrev to_number : Stack → Stack
to_number (text_entry (n ∷ t) ∷ stack) = json_entry (number n) ∷ stack
to_number stack = []

abbrev to_other_number : Stack → Stack
to_other_number (text_entry t ∷ stack) = json_entry (other_number t) ∷ stack
to_other_number stack = []

abbrev to_str : Stack → Stack
to_str (text_entry t ∷ stack) = json_entry (str t) ∷ stack
to_str stack = []

abbrev to_items : Stack → Stack
to_items (json_entry j ∷ items_entry items ∷ stack) = items_entry (cons j items) ∷ stack
to_items stack = []

abbrev to_arr : Stack → Stack
to_arr (items_entry items ∷ stack) = json_entry (arr items) ∷ stack
to_arr stack = []

abbrev to_fields : Stack → Stack
to_fields (text_entry k ∷ json_entry j ∷ fields_entry fields ∷ stack) =
    fields_entry (field k j fields) ∷ stack
to_fields stack = []

abbrev to_obj : Stack → Stack
to_obj (fields_entry fields ∷ stack) = json_entry (obj fields) ∷ stack
to_obj stack = []

-- What a character does to the stack; from 65536 on it is one of a text.
abbrev step : ℕ → Stack → Stack
step c stack =
    if leb 65536 c
    then push_char (c - 65536) stack
    else if nat_eq c 33
    then json_entry null ∷ stack
    else if nat_eq c 34
    then json_entry (bool true) ∷ stack
    else if nat_eq c 35
    then json_entry (bool false) ∷ stack
    else if nat_eq c 38
    then to_number stack
    else if nat_eq c 39
    then to_other_number stack
    else if nat_eq c 40
    then to_str stack
    else if nat_eq c 41
    then text_entry [] ∷ stack
    else if nat_eq c 42
    then items_entry nil ∷ stack
    else if nat_eq c 43
    then to_items stack
    else if nat_eq c 44
    then to_arr stack
    else if nat_eq c 45
    then fields_entry end ∷ stack
    else if nat_eq c 46
    then to_fields stack
    else if nat_eq c 47
    then to_obj stack
    else []

unfoldable run : Text → Stack → Stack
run [] stack = stack
run (c ∷ t) stack = run t (step c stack)

abbrev write_text : Text → Text → Text
write_text [] rest = 41 ∷ rest
write_text (c ∷ t) rest = write_text t ((c + 65536) ∷ rest)

abbrev mutual
  write : Json → Text → Text
  write null rest = 33 ∷ rest
  write (bool true) rest = 34 ∷ rest
  write (bool false) rest = 35 ∷ rest
  write (number n) rest = write_text (n ∷ []) (38 ∷ rest)
  write (other_number t) rest = write_text t (39 ∷ rest)
  write (str t) rest = write_text t (40 ∷ rest)
  write (arr items) rest = write_items items (44 ∷ rest)
  write (obj fields) rest = write_fields fields (47 ∷ rest)

  write_items : Items → Text → Text
  write_items nil rest = 42 ∷ rest
  write_items (cons j items) rest = write_items items (write j (43 ∷ rest))

  write_fields : Fields → Text → Text
  write_fields end rest = 45 ∷ rest
  write_fields (field k j fields) rest = write_fields fields (write j (write_text k (46 ∷ rest)))

step_char :
    (c : ℕ) (t : Text) (stack : Stack)
    → step (c + 65536) (text_entry t ∷ stack) ≡ text_entry (c ∷ t) ∷ stack
step_char c t stack =
    let large : leb 65536 (c + 65536) ≡ true = ground arith in
    let back : (c + 65536) - 65536 ≡ c = omega arith in rw (large, back) refl

run-write_text :
    (t rest : Text) (stack : Stack)
    → run (write_text t rest) stack ≡ run rest (text_entry t ∷ stack)
unfolding run
run-write_text [] rest stack = refl
run-write_text (c ∷ t) rest stack =
    run-write_text t ((c + 65536) ∷ rest) stack ∙ ap (λ s. run rest s) (step_char c t stack)

mutual
  unfolding run

  run-write :
      (j : Json) (rest : Text) (stack : Stack)
      → run (write j rest) stack ≡ run rest (json_entry j ∷ stack)
  run-write null rest stack = refl
  run-write (bool true) rest stack = refl
  run-write (bool false) rest stack = refl
  run-write (number n) rest stack = run-write_text (n ∷ []) (38 ∷ rest) stack
  run-write (other_number t) rest stack = run-write_text t (39 ∷ rest) stack
  run-write (str t) rest stack = run-write_text t (40 ∷ rest) stack
  run-write (arr items) rest stack = run-write_items items (44 ∷ rest) stack
  run-write (obj fields) rest stack = run-write_fields fields (47 ∷ rest) stack

  run-write_items :
      (items : Items) (rest : Text) (stack : Stack)
      → run (write_items items rest) stack ≡ run rest (items_entry items ∷ stack)
  run-write_items nil rest stack = refl
  run-write_items (cons j items) rest stack =
      run-write_items items (write j (43 ∷ rest)) stack
      ∙ run-write j (43 ∷ rest) (items_entry items ∷ stack)

  run-write_fields :
      (fields : Fields) (rest : Text) (stack : Stack)
      → run (write_fields fields rest) stack ≡ run rest (fields_entry fields ∷ stack)
  run-write_fields end rest stack = refl
  run-write_fields (field k j fields) rest stack =
      run-write_fields fields (write j (write_text k (46 ∷ rest))) stack
      ∙ run-write j (write_text k (46 ∷ rest)) (fields_entry fields ∷ stack)
      ∙ run-write_text k (46 ∷ rest) (json_entry j ∷ fields_entry fields ∷ stack)

write_text_visible : (t rest : Text) → All IsVisible rest → All IsVisible (write_text t rest)
write_text_visible [] rest h = (inl (omega arith, omega arith), h)
write_text_visible (c ∷ t) rest h = write_text_visible t ((c + 65536) ∷ rest) (inr (omega arith), h)

mutual
  write_visible : (j : Json) (rest : Text) → All IsVisible rest → All IsVisible (write j rest)
  write_visible null rest h = (inl (omega arith, omega arith), h)
  write_visible (bool true) rest h = (inl (omega arith, omega arith), h)
  write_visible (bool false) rest h = (inl (omega arith, omega arith), h)
  write_visible (number n) rest h =
      write_text_visible (n ∷ []) (38 ∷ rest) (inl (omega arith, omega arith), h)
  write_visible (other_number t) rest h =
      write_text_visible t (39 ∷ rest) (inl (omega arith, omega arith), h)
  write_visible (str t) rest h =
      write_text_visible t (40 ∷ rest) (inl (omega arith, omega arith), h)
  write_visible (arr items) rest h =
      write_items_visible items (44 ∷ rest) (inl (omega arith, omega arith), h)
  write_visible (obj fields) rest h =
      write_fields_visible fields (47 ∷ rest) (inl (omega arith, omega arith), h)

  write_items_visible :
      (items : Items) (rest : Text) → All IsVisible rest → All IsVisible (write_items items rest)
  write_items_visible nil rest h = (inl (omega arith, omega arith), h)
  write_items_visible (cons j items) rest h =
      write_items_visible items (write j (43 ∷ rest))
        (write_visible j (43 ∷ rest) (inl (omega arith, omega arith), h))

  write_fields_visible :
      (fields : Fields) (rest : Text)
      → All IsVisible rest
      → All IsVisible (write_fields fields rest)
  write_fields_visible end rest h = (inl (omega arith, omega arith), h)
  write_fields_visible (field k j fields) rest h =
      write_fields_visible fields (write j (write_text k (46 ∷ rest))) (
        write_visible j (write_text k (46 ∷ rest))
          (write_text_visible k (46 ∷ rest) (inl (omega arith, omega arith), h)))

abbrev result_of : Stack → Option Json
result_of (json_entry j ∷ []) = some j
result_of stack = none

abbrev dumps : Json → Text
dumps j = write j []

unfoldable loads : Text → Option Json
unfolding run
loads t = result_of (run t [])

loads-dumps : (j : Json) → loads (dumps j) ≡ some j
unfolding loads run
loads-dumps j = ap result_of (run-write j [] [])

not_empty : (t : Text) (j : Json) → loads t ≡ some j → is_empty t ≡ false
unfolding loads run
not_empty [] j h = cc
not_empty (c ∷ t) j h = refl

visible_no_line : (t : Text) → All IsVisible t → All (λ c. c ≢ 10) t
visible_no_line [] h = tt
visible_no_line (c ∷ t) h = (
  λ e. elim h.0 [ inl (low, high) ↦ omega arith | inr high ↦ omega arith ],
  visible_no_line t h.1,
)

pub postfix : Codec
postfix = record {
  dumps = dumps;
  loads = loads;
  loads-dumps = loads-dumps;
  strip-dumps = λ j. strip-visible (dumps j) (write_visible j [] tt);
  dumps_some = λ j. not_empty (dumps j) j (loads-dumps j);
  dumps_line = λ j. visible_no_line (dumps j) (write_visible j [] tt);
}
