-- ===== src/EndToEnd/Chatting.antt =====
-- A chat message from the console of one client to that of another.
use high_performance_chatser.Prelude.{
  ℤ, ◌-◌, ◌<◌, ◌≡◌, ◌∙◌, refl, sym, ap, inl, inr, Bytes, codes, [], ◌∷◌, ◌++◌, some, length, take,
  ok, arith, true, lookup, int_eq, bytes_eq, bytes_beq, find, find-append, drop_past,
  take-length-append, take_all, append-nil, Lacks, All-append, length-append,
}
use high_performance_chatser.Prelude.Decimal.{
  IsInt, fmt_int, atoi_whole, fmt_int-IsNumeral, numeral-Lacks,
}
use high_performance_chatser.Platform.{Platform}
use high_performance_chatser.Platform.Json.{JsonLaws, object, object-IsBuilt, Reads-object}
use high_performance_chatser.World.{World, ConnId, sent, ◌>>=◌}
use high_performance_chatser.Model.Statements.{c_str, c_str_whole}
use high_performance_chatser.Service.Messages.{get_handler, msg_handler_map}
use high_performance_chatser.Service.Chats.{one_chat, deliver}
use high_performance_chatser.Service.Dispatch.{on_message, run_handler}
use high_performance_chatser.Client.{Client, show}
use high_performance_chatser.Client.Requests.{chat_fields, request, send_request}
use high_performance_chatser.Client.Commands.{
  chat, after_colon, parse_line, run_command, run_parsed, menu_line, command_handler_map,
}
use high_performance_chatser.Client.Responses.{receive, handle_text, dispatch, chat_line}
use high_performance_chatser.EndToEnd.Texts.{parse-request, receive-dump}

-- What the user types to send `msg` to `friend`.
abbrev pub chat_command : ℤ → Bytes → Bytes
chat_command friend msg = codes "chat:" ++ fmt_int friend ++ b':' ∷ msg

-- The text that the client's request carries.
abbrev pub chat_text : (P : Platform) → Client → ℤ → Bytes → Bytes
chat_text P c friend msg = P.dump (object P (chat_fields c.current_user friend msg))

after_colon-append : (xs ys : Bytes) → after_colon (length xs) (xs ++ b':' ∷ ys) ≡ ys
after_colon-append xs ys =
    rw (drop_past xs b':' ys) (take_all _ ys (omega (arith, length-append xs (b':' ∷ ys))))

module _ (P : Platform) where
  chat_lem :
      (c : Client) (friend : ℤ) (msg : Bytes)
      → P.is_printable (object P (chat_fields c.current_user friend msg)) ≡ true
      → chat P true (fmt_int friend ++ b':' ∷ msg) c
        ≡ record c { sent = c.sent ++ request P (chat_fields c.current_user friend msg) ∷ [] }
  unfolding chat send_request
  chat_lem c friend msg p =
      let colon =
        find-append b':' (fmt_int friend) msg
          (numeral-Lacks b':' (fmt_int friend) (inr (omega arith)) (fmt_int-IsNumeral friend)) in
      rw (colon, chat)
        (rw
          (
            take-length-append (fmt_int friend) (b':' ∷ msg),
            atoi_whole friend,
            after_colon-append (fmt_int friend) msg,
            p,
          )
          refl)

  menu_line-chat :
      (c : Client) (friend : ℤ) (msg : Bytes)
      → Lacks 0 msg
      → menu_line P true (chat_command friend msg) c ≡ chat P true (fmt_int friend ++ b':' ∷ msg) c
  unfolding menu_line parse_line find run_parsed run_command lookup bytes_beq
  menu_line-chat c friend msg h =
      let rest = fmt_int friend ++ b':' ∷ msg in
      let whole : c_str (chat_command friend msg) ≡ chat_command friend msg =
        c_str_whole (chat_command friend msg) (
          refl,
          (
            refl,
            (
              refl,
              (
                refl,
                (
                  refl,
                  All-append _ (fmt_int friend) (b':' ∷ msg)
                      (numeral-Lacks 0 (fmt_int friend) (inl (omega arith))
                        (fmt_int-IsNumeral friend))
                      (refl, h),
                ),
              ),
            ),
          ),
        ) in
      let args : take (length (chat_command friend msg) - 4) rest ≡ rest =
        take_all _ rest (omega arith) in
      ap (λ l. run_parsed P (lookup (parse_line l).0 command_handler_map) true (parse_line l).1 c)
        whole
      ∙ ap (λ s. chat P true s c) args

module _ {P : Platform} (laws : JsonLaws P) where
  -- The server passes a chat request on to the connection that the map has for its receiver.
  serve_chat :
      (conn friend_conn : ConnId) (c : Client) (friend : ℤ) (msg : Bytes) (w : World P)
      → P.is_printable (object P (chat_fields c.current_user friend msg)) ≡ true
      → lookup friend w.users ≡ some friend_conn
      → on_message conn (request P (chat_fields c.current_user friend msg)) w
        ≡ (ok tt, record w { trace = w.trace ++ sent friend_conn (chat_text P c friend msg) ∷ [] })
  unfolding on_message ◌>>=◌ run_handler get_handler msg_handler_map one_chat deliver bytes_beq
  serve_chat conn friend_conn c friend msg w p found =
      let fields = chat_fields c.current_user friend msg in
      let parsed =
        ap P.parse (sym (append-nil (request P fields))) ∙ parse-request laws fields [] p in
      rw parsed (
        rw ((Reads-object laws fields (codes "msgid")).int)
          (rw ((Reads-object laws fields (codes "toid")).int) (rw found refl)))

  -- The receiver's client prints the message.
  print_chat :
      (c other : Client) (friend : ℤ) (msg : Bytes)
      → P.is_printable (object P (chat_fields c.current_user friend msg)) ≡ true
      → length (chat_text P c friend msg) < 1024
      → receive P (chat_text P c friend msg) other
        ≡ ok (
            show
              (codes "["
                ++ fmt_int c.current_user.id
                ++ codes "]"
                ++ c.current_user.name
                ++ codes " said: "
                ++ msg)
              other)
  unfolding handle_text dispatch chat_line bytes_beq
  print_chat c other friend msg p short =
      let fields = chat_fields c.current_user friend msg in
      let js = object P fields in
      receive-dump laws js other (object-IsBuilt laws fields) p short
      ∙ rw (laws.parse-dump js (object-IsBuilt laws fields) p) (
          rw ((Reads-object laws fields (codes "msgid")).int) (
            rw ((Reads-object laws fields (codes "name")).string) (
              rw ((Reads-object laws fields (codes "msg")).string)
                (rw ((Reads-object laws fields (codes "id")).text c.current_user.id refl) refl))))

  -- If FRIEND is an `int`, the receiver is connected to the server, and the message's texts are UTF-8
  -- and its JSON text has less than 1024 bytes: the line `chat:FRIEND:MSG` on the sender's console,
  -- MSG without a zero byte, makes one request; the server answers it with
  -- exactly one text, to the receiver's connection, and keeps its map; and the receiver's client
  -- prints the sender's number and name and MSG, and changes nothing else.
  pub chat_reaches_friend :
      (c other : Client) (conn friend_conn : ConnId) (friend : ℤ) (msg : Bytes) (w : World P)
      → IsInt friend
      → Lacks 0 msg
      → P.is_printable (object P (chat_fields c.current_user friend msg)) ≡ true
      → lookup friend w.users ≡ some friend_conn
      → length (chat_text P c friend msg) < 1024
      → (req : Bytes) × (menu_line P true (chat_command friend msg) c
          ≡ record c { sent = c.sent ++ req ∷ [] })
        × (on_message conn req w ≡ (
          ok tt,
          record w { trace = w.trace ++ sent friend_conn (chat_text P c friend msg) ∷ [] },
        ))
        × (receive P (chat_text P c friend msg) other
            ≡ ok (
                show
                  (codes "["
                    ++ fmt_int c.current_user.id
                    ++ codes "]"
                    ++ c.current_user.name
                    ++ codes " said: "
                    ++ msg)
                  other))
  chat_reaches_friend c other conn friend_conn friend msg w in_range clean p found short = (
    request P (chat_fields c.current_user friend msg),
    menu_line-chat P c friend msg clean ∙ chat_lem P c friend msg p,
    serve_chat conn friend_conn c friend msg w p found,
    print_chat c other friend msg p short,
  )
