-- ===== src/WsClient/Inbox.antt =====
-- pkg/websocket/client.go: messageReader as a whole, and the commands that it puts into the channel.
use k8s_runpod_kubelet.Base.{
  fill, fill_nil, fill_room, fill_full, true, String, List, [], ◌∷◌, ◌++◌, Option, length, ltb, ◌≡◌,
  refl, sym, ap, ◌∙◌, inl, inr, ◌==◌, if◌then◌else◌, Bool-cases, Result, ok, err,
}
use k8s_runpod_kubelet.Protocol.Json.{Json}
use k8s_runpod_kubelet.Protocol.Messages.{Envelope, envelope_command}
use k8s_runpod_kubelet.Protocol.Wire.{TimePackage, Stamped, parse_envelope}
use k8s_runpod_kubelet.WsClient.Link.{Link, ReadError, read_failed, handle_incoming_message}
use k8s_runpod_kubelet.WsClient.Reader.{read_message, take_parsed}

-- What ReadMessage returns.
pub data Read : Type 0 where
  receives_text : String → Read
  fails : ReadError → Read

abbrev pub texts_read : List String → List Read
texts_read [] = []
texts_read (text ∷ texts) = receives_text text ∷ texts_read texts

module _ {Time : Type 0} (clock : TimePackage Time) (parse_json : String → Option Json) where
  -- messageReader, over the reads that it comes to; at an error it returns
  unfoldable pub read_loop : Link → List Read → Link
  unfolding read_message read_failed
  read_loop l [] = l
  read_loop l (receives_text text ∷ rest) = read_loop (read_message clock parse_json l text) rest
  read_loop l (fails x ∷ rest) = read_failed l x

  unfoldable pub message_reader : Link → List Read → Link
  unfolding read_loop
  message_reader l reads = if l.has_conn then read_loop l reads else l

  -- The command in a text, if there is one.
  abbrev command_of : Result (Stamped Time) → List Envelope
  command_of (err e) = []
  command_of (ok s) = if s.envelope.type == envelope_command then s.envelope ∷ [] else []

  abbrev pub commands_in : List String → List Envelope
  commands_in [] = []
  commands_in (text ∷ texts) =
      command_of (parse_envelope clock parse_json text) ++ commands_in texts

  -- The client with so many of the commands behind those that are there.
  abbrev pub with_commands : Link → List Envelope → Link
  with_commands l es = record l { commands = fill 100 l.commands es }

  take_handled :
      (l : Link) (e : Envelope) (es : List Envelope)
      → with_commands (handle_incoming_message l e) es
        ≡ with_commands l ((if e.type == envelope_command then e ∷ [] else []) ++ es)
  unfolding handle_incoming_message
  take_handled l e es = elim (Bool-cases (e.type == envelope_command)) [
    | inr other ↦ rw other refl
    | inl is_command ↦ elim (Bool-cases (ltb (length l.commands) 100)) [
      | inl room ↦
          rw (is_command, room)
            (ap (λ es. record l { commands = es }) (fill_room 100 l.commands e es room))
      | inr full ↦
          rw (is_command, full)
            (ap (λ es. record l { commands = es })
              (fill_full 100 l.commands es full ∙ sym (fill_full 100 l.commands (e ∷ es) full)))
    ]
  ]

  take_parsed-commands :
      (l : Link) (r : Result (Stamped Time)) (es : List Envelope)
      → with_commands (take_parsed clock l r) es ≡ with_commands l (command_of r ++ es)
  take_parsed-commands l (err e) es = refl
  take_parsed-commands l (ok s) es = take_handled l s.envelope es

  read_loop-texts :
      (l : Link) (texts : List String) (x : ReadError) (later : List Read)
      → read_loop l (texts_read texts ++ fails x ∷ later)
        ≡ read_failed (with_commands l (commands_in texts)) x
  unfolding read_loop read_message
  read_loop-texts l [] x later =
      ap (λ t. read_failed t x) (λ i. record l { commands = sym (fill_nil 100 l.commands) i })
  read_loop-texts l (text ∷ texts) x later =
      let r = parse_envelope clock parse_json text in
      read_loop-texts (take_parsed clock l r) texts x later
      ∙ ap (λ t. read_failed t x) (take_parsed-commands l r (commands_in texts))

  -- With a connection, let ReadMessage return some texts and then an error. Then messageReader has put
  -- into the channel, behind what was there and in the order in which they came, the command
  -- envelopes among the texts that parse, as many as the channel of 100 has room for: a text that
  -- does not parse, an envelope of another type and a command that does not fit are dropped, and do
  -- not end the reading. It has recorded the reason of a refusal, if the error is one, and has
  -- returned: nothing that would be read later counts. Nothing else of the client is changed.
  pub message_reader-texts :
      (l : Link) (texts : List String) (x : ReadError) (later : List Read)
      → l.has_conn ≡ true
      → message_reader l (texts_read texts ++ fails x ∷ later)
        ≡ read_failed (record l { commands = fill 100 l.commands (commands_in texts) }) x
  unfolding message_reader
  message_reader-texts l texts x later on =
      ap (λ b. if b then read_loop l (texts_read texts ++ fails x ∷ later) else l) on
      ∙ read_loop-texts l texts x later
