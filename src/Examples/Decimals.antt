-- ===== src/Examples/Decimals.antt =====
-- jsonrpc: a concrete encoding of messages, with numbers in decimal.
use birpc.Base.{
  ℕ, zero, suc, ◌+◌, ◌-◌, ◌*◌, ◌/◌, ◌%◌, ◌≤◌, ◌<◌, ◌≡◌, ◌≢◌, ◌++◌, refl, ap, ◌∙◌, Option, none,
  some, [], ◌∷◌, false, ◌&&◌, if◌then◌else◌, ltb, arith, Bool-cases, inl, inr,
}
use birpc.Base.Text.{Text, codes}
use birpc.Json.{Json, Any, no_value, text_value, null_text}
use birpc.Json.Encoding.{Encoding}
use birpc.Wire.{Value, nil_value, plain}

-- the decimal digits of a number, on fuel
abbrev pub digits : ℕ → ℕ → Text
digits zero n = (48 + n) ∷ []
digits (suc fuel) n = if ltb n 10 then (48 + n) ∷ [] else digits fuel (n / 10) ++ (48 + n % 10) ∷ []

abbrev pub decimal : ℕ → Text
decimal n = digits n n

-- the number that the digits in a text make
abbrev pub number_after : ℕ → Text → ℕ
number_after a [] = a
number_after a (c ∷ s) = number_after (if ltb 47 c && ltb c 58 then a * 10 + (c - 48) else a) s

number_after-append :
    (s : Text) (a d : ℕ) → d < 10 → number_after a (s ++ (48 + d) ∷ []) ≡ number_after a s * 10 + d
number_after-append [] a d h = ground arith
number_after-append (c ∷ s) a d h = number_after-append s _ d h

pub number_after-digits : (fuel n : ℕ) → n ≤ fuel → number_after 0 (digits fuel n) ≡ n
number_after-digits zero n h = ground arith
number_after-digits (suc fuel) n h =
    let shorter : ltb n 10 ≡ false → number_after 0 (digits fuel (n / 10)) ≡ n / 10 =
      λ e. number_after-digits fuel (n / 10) (ground (arith, e)) in
    let last = number_after-append (digits fuel (n / 10)) 0 (n % 10) (omega arith) in
    elim (Bool-cases (ltb n 10)) [
      | inl e ↦ rw e (ground (arith, e))
      | inr e ↦ let h = shorter e in rw e (omega (arith, last, h))
    ]

abbrev pub value_text : Value → Text
value_text nil_value = null_text
value_text (plain n) = decimal n
value_text v = codes "{}"

abbrev pub result_of : Value → Option Text
result_of nil_value = none
result_of v = some (value_text v)

abbrev pub error_value : Option Text → Any
error_value none = no_value
error_value (some t) = text_value t

-- values are read as numbers
abbrev pub decimal_json : Json
decimal_json = record {
  unmarshal = λ t v. (plain (number_after 0 t), none);
  unmarshal_params = λ t v. (plain (number_after 0 t), none);
  encode_response = λ m. none;
  encode_request = λ m. none;
}

pub result_of-value_text :
    (v : Value) → value_text v ≢ null_text → result_of v ≡ some (value_text v)
result_of-value_text nil_value h = absurd (h refl)
result_of-value_text v h = refl

abbrev pub decimal_encoding : Encoding decimal_json
decimal_encoding = record {
  number_text = decimal;
  params_text = λ v. codes "[" ++ value_text v ++ codes "]";
  result_text = value_text;
  request_of = λ m. record {
    method = m.method;
    params = some (codes "[" ++ value_text m.params ++ codes "]");
    id = some (decimal m.id);
  };
  response_of = λ m. record {
    id = number_after 0 m.id;
    result = result_of m.result;
    error = error_value m.error;
  };
  request_of-method = λ m e a. refl;
  request_of-params = λ m e. refl;
  request_of-id = λ m e. refl;
  response_of-id = λ m n e small h. ap (number_after 0) h ∙ number_after-digits n n (omega arith);
  response_of-result = λ m e h. result_of-value_text m.result h;
  response_of-no_error = λ m e h. ap error_value h;
  response_of-error = λ m t e a h. ap error_value h;
}
