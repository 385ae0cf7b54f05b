-- ===== src/EndToEnd/Texts.antt =====
-- How each side reads what the other has printed.
use high_performance_chatser.Prelude.{
  ◌<◌, ◌≡◌, ◌∙◌, refl, ap, Bytes, List, [], ◌∷◌, ◌++◌, some, length, ltb, arith, true, append_assoc,
}
use high_performance_chatser.Platform.{Platform}
use high_performance_chatser.Platform.Json.{Value, JsonLaws, object, object-IsBuilt}
use high_performance_chatser.Model.Statements.{c_str, c_str_whole}
use high_performance_chatser.Client.{Client}
use high_performance_chatser.Client.Requests.{request}
use high_performance_chatser.Client.Responses.{receive, handle_text}

module _ {P : Platform} (laws : JsonLaws P) where
  pub c_str-dump : (j : P.Json) → P.is_printable j ≡ true → c_str (P.dump j) ≡ P.dump j
  c_str-dump j p = c_str_whole (P.dump j) (laws.dump_nonzero j p)

  -- The server reads the first of the requests that a read has delivered.
  pub parse-request :
      (fields : List (Bytes × Value)) (rest : Bytes)
      → P.is_printable (object P fields) ≡ true
      → P.parse (request P fields ++ rest) ≡ some (object P fields)
  unfolding request
  parse-request fields rest p =
      ap P.parse (
        append_assoc (c_str (P.dump (object P fields))) (0 ∷ []) rest
        ∙ ap (λ t. t ++ 0 ∷ rest) (c_str-dump (object P fields) p))
      ∙ laws.parse-dump_nul (object P fields) rest (object-IsBuilt laws fields) p

  -- The client reads a JSON text that fits its array.
  pub receive-dump :
      (j : P.Json) (c : Client)
      → laws.IsBuilt j
      → P.is_printable j ≡ true
      → length (P.dump j) < 1024
      → receive P (P.dump j) c ≡ handle_text P (P.dump j) c
  unfolding receive
  receive-dump j c b p short = go (P.dump j) refl short
    where
      go :
          (text : Bytes)
          → P.dump j ≡ text
          → length text < 1024
          → receive P text c ≡ handle_text P text c
      go [] e h = absurd (cc (laws.parse_empty, laws.parse-dump j b p, e))
      go (x ∷ text) e h =
          let whole : c_str (x ∷ text) ≡ x ∷ text = rw e at (c_str-dump j p) in
          let fits : ltb (length (x ∷ text)) 1024 ≡ true = ground arith in rw whole (rw fits refl)
