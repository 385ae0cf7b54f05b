-- ===== src/Service/Access.antt =====
-- `js[key].get<int>()` and a string member, as the handlers read a message.
use high_performance_chatser.Prelude.{ℤ, Bytes, int_eq, bytes_eq, nat_eq}
use high_performance_chatser.Platform.{Platform}
use high_performance_chatser.World.{Exec, or_throw}

module _ {P : Platform} where
  abbrev pub get_int_at : P.Json → Bytes → Exec P ℤ
  get_int_at js key = or_throw (P.get_int js key)

  abbrev pub get_string_at : P.Json → Bytes → Exec P Bytes
  get_string_at js key = or_throw (P.get_string js key)
