-- ===== src/Sandbox/Wasm/Modules.antt =====
-- The modules that runtime/backend/wasm/wasm.go accepts from a request.
use toolexec.Base.{
  ℕ, ◌≡◌, ◌≢◌, sym, ap, ◌∙◌, String, Bool, true, false, Option, none, some, List, [], ◌∷◌, inl, inr,
  is_empty, eq_iff, Bool-cases,
}
use toolexec.Value.{str, bytes}
use toolexec.Effects.{ok}
use toolexec.Sandbox.Wasm.{
  is_wasm_module, checked_module, decoded, decode_module, decode_module_string,
}
use toolexec.Sandbox.Wasm.Base64.{decode_groups, digits_of, decode_string}
use toolexec.Sandbox.Wasm.Base64.RoundTrip.{encode, AreBytes, decode_groups-encode, raw_as_padded}

accept : (m : List ℕ) → is_wasm_module m ≡ true → checked_module m ≡ ok m
unfolding checked_module
accept m h = rw h

decoded-padded :
    (m : List ℕ) (raw : Option (List ℕ)) → is_wasm_module m ≡ true → decoded (some m) raw ≡ ok m
unfolding decoded
decoded-padded m raw h = accept m h

decoded-raw : (m : List ℕ) → is_wasm_module m ≡ true → decoded none (some m) ≡ ok m
unfolding decoded
decoded-raw m h = accept m h

encode-ne_nil : (padded : Bool) (m : List ℕ) → is_wasm_module m ≡ true → encode padded m ≢ []
unfolding is_wasm_module encode
encode-ne_nil padded [] h e = cc
encode-ne_nil padded (x ∷ []) h e = cc
encode-ne_nil padded (x ∷ y ∷ []) h e = cc
encode-ne_nil padded (x ∷ y ∷ z ∷ rest) h e = cc

not_empty :
    (t : String) (padded : Bool) (m : List ℕ)
    → digits_of t ≡ encode padded m
    → is_wasm_module m ≡ true
    → is_empty t ≡ false
unfolding digits_of
not_empty t padded m e h = elim (Bool-cases (is_empty t)) [
  | inl empty ↦
      let nothing = ap digits_of ((eq_iff t "").0 empty) in
      absurd (encode-ne_nil padded m h (sym e ∙ nothing))
  | inr some_text ↦ some_text
]

-- A WebAssembly module that a request holds as base64 text, padded or not, with line breaks
-- anywhere, is decoded to its bytes, and so is one that the request holds as bytes.
pub decode_module-encode :
    (padded : Bool) (m : List ℕ) (t : String)
    → AreBytes m
    → is_wasm_module m ≡ true
    → digits_of t ≡ encode padded m
    → (decode_module (str t) ≡ ok m) × (decode_module (bytes m) ≡ ok m)
unfolding decode_module decode_module_string decode_string
decode_module-encode true m t h magic e = (
  rw (
    not_empty t true m e magic,
    e,
    decode_groups-encode true m h,
    decoded-padded m (decode_groups false (encode true m)) magic,
  ),
  accept m magic,
)
decode_module-encode false m t h magic e = (
  rw (not_empty t false m e magic, e, decode_groups-encode false m h)
      (elim (raw_as_padded m h) [
        | inl refused ↦ rw refused (decoded-raw m magic)
        | inr right ↦ rw right (decoded-padded m (some m) magic)
      ]),
  accept m magic,
)
