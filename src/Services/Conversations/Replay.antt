-- ===== src/Services/Conversations/Replay.antt =====
-- A client's message is written once (services/domain.py, `add_message`).
use the_creation_os.Prelude.{
  String, ◌≡◌, ◌∙◌, refl, sym, ap, subst, Bool, true, Option, none, some, List, [], ◌∷◌, ◌++◌, ok,
  ◌>>=◌, ◌>>◌, >>=-eq-ok, ◌==◌, string_eq, if_taken, beq_refl, lookup, arith,
}
use the_creation_os.Domain.{Actor, require_creator}
use the_creation_os.Services.Conversations.{
  ConversationRow, MessageRow, Chats, owned_conversation, is_replayed, first_message, key_of,
  existing_message, message_of, check_active, write_message, write_for, add_keyed, add_message,
}

first_of_append :
    (test : MessageRow → Bool) (ms : List MessageRow) (m : MessageRow)
    → first_message test ms ≡ none
    → test m ≡ true
    → first_message test (ms ++ m ∷ []) ≡ some m
first_of_append test [] m h t = ground arith
first_of_append test (x ∷ xs) m h t = ground (arith, first_of_append test xs m)

is_replayed-message_of :
    (actor : Actor) (id conversation_id content key : String)
    → (actor.role == "creator") ≡ true
    → is_replayed conversation_id actor.id key
        (message_of actor id conversation_id content (some key))
      ≡ true
is_replayed-message_of actor id conversation_id content key by_creator =
    ground (arith, beq_refl conversation_id, beq_refl actor.id, beq_refl key)

-- What the second write of the same request finds.
write_twice :
    (c : ConversationRow) (actor : Actor) (id again conversation_id content key : String)
    (s s' : Chats) (m : MessageRow) (o : Option MessageRow)
    → (actor.role == "creator") ≡ true
    → existing_message conversation_id actor.id (some key) s.messages ≡ o
    → write_message c (message_of actor id conversation_id content (some key)) o s ≡ ok (m, s')
    → write_message c
        (message_of actor again conversation_id content (some key))
        (existing_message conversation_id actor.id (some key) s'.messages)
        s'
      ≡ ok (m, s')
write_twice c actor id again conversation_id content key s s' m (some e) by_creator found h =
    let same_text : (e.content == content) ≡ true = ground arith in
    let em : e ≡ m = ground arith in
    let es : s ≡ s' = ground arith in
    ap (λ o. write_message c (message_of actor again conversation_id content (some key)) o s')
      (ap (λ (x : Chats). existing_message conversation_id actor.id (some key) x.messages) (sym es)
        ∙ found
        ∙ ap some em)
    ∙ if_taken (λ x. x ≡ ok (m, s')) (m.content == content) _
        (ap (λ (x : MessageRow). x.content == content) (sym em) ∙ same_text) refl
write_twice c actor id again conversation_id content key s s' m none by_creator found h =
    let new = message_of actor id conversation_id content (some key) in
    let (u, checked, stored) =
      >>=-eq-ok (check_active c.status)
        (λ _. ok (new, record s { messages = s.messages ++ new ∷ [] })) h in
    let nm : new ≡ m = cc in
    let ns : record s { messages = s.messages ++ new ∷ [] } ≡ s' = cc in
    ap (λ o. write_message c (message_of actor again conversation_id content (some key)) o s')
      (ap (λ (x : Chats). existing_message conversation_id actor.id (some key) x.messages) (sym ns)
        ∙ first_of_append (is_replayed conversation_id actor.id key) s.messages new found
            (is_replayed-message_of actor id conversation_id content key by_creator)
        ∙ ap some nm)
    ∙ if_taken (λ x. x ≡ ok (m, s')) (m.content == content) _
        (ap (λ (x : MessageRow). x.content == content) (sym nm) ∙ beq_refl content) refl

write_keeps :
    (c : ConversationRow) (new m : MessageRow) (o : Option MessageRow) (s s' : Chats)
    → write_message c new o s ≡ ok (m, s')
    → s'.conversations ≡ s.conversations
write_keeps c new m (some e) s s' h =
    let es : s ≡ s' = ground arith in ap (λ (x : Chats). x.conversations) (sym es)
write_keeps c new m none s s' h =
    let (u, checked, stored) =
      >>=-eq-ok (check_active c.status)
        (λ _. ok (new, record s { messages = s.messages ++ new ∷ [] })) h in
    let ns : record s { messages = s.messages ++ new ∷ [] } ≡ s' = cc in
    ap (λ (x : Chats). x.conversations) (sym ns)

creator_role :
    (actor : Actor) (u : Unit {0}) → require_creator actor ≡ ok u → (actor.role == "creator") ≡ true
unfolding require_creator
creator_role actor u h = ground arith

add_keyed_again :
    (actor : Actor) (id again conversation_id content key : String) (s s' : Chats) (m : MessageRow)
    → add_keyed actor id conversation_id content (some key) s ≡ ok (m, s')
    → add_keyed actor again conversation_id content (some key) s' ≡ ok (m, s')
add_keyed_again actor id again conversation_id content key s s' m h =
    let (u, is_creator, rest) =
      >>=-eq-ok (require_creator actor)
        (λ _.
          owned_conversation actor (lookup conversation_id s.conversations)
          >>= write_for actor id conversation_id content (some key) s)
        h in
    let (c, mine, last) =
      >>=-eq-ok (owned_conversation actor (lookup conversation_id s.conversations))
        (write_for actor id conversation_id content (some key) s) rest in
    let kept =
      write_keeps c (message_of actor id conversation_id content (some key)) m _ s s' last in
    ap
      (λ r.
        r
        >> (owned_conversation actor (lookup conversation_id s'.conversations)
            >>= write_for actor again conversation_id content (some key) s'))
      is_creator
    ∙ ap (λ r. r >>= write_for actor again conversation_id content (some key) s')
        (ap (λ d. owned_conversation actor (lookup conversation_id d)) kept ∙ mine)
    ∙ write_twice c actor id again conversation_id content key s s' m _
        (creator_role actor u is_creator) refl last

-- A message that is sent again with the same client id and content is not written again: the second
-- request gives the message that the first gave, and changes nothing.
pub add_message_again :
    (actor : Actor) (id again conversation_id content client_id : String) (s s' : Chats)
    (m : MessageRow)
    → key_of (some client_id) ≡ some client_id
    → add_message actor id conversation_id content (some client_id) s ≡ ok (m, s')
    → add_message actor again conversation_id content (some client_id) s' ≡ ok (m, s')
unfolding add_message
add_message_again actor id again conversation_id content client_id s s' m keyed h =
    subst (λ k. add_keyed actor again conversation_id content k s' ≡ ok (m, s')) (sym keyed)
      (add_keyed_again actor id again conversation_id content client_id s s' m
        (subst (λ k. add_keyed actor id conversation_id content k s ≡ ok (m, s')) keyed h))
