-- ===== src/App/Transcript.antt =====
-- What a sequence of chat events leaves in the terminal program: its messages, its peers and its mode.
use nullpipe.Common.{
  ℕ, ◌≡◌, refl, sym, subst, ap, ◌∙◌, Bool, true, not, ◌&&◌, ◌||◌, Bool-cases, Option-cases, inl,
  inr, Option, none, some, List, [], ◌∷◌, ◌++◌, append_assoc, append-nil, if◌then◌else◌, arith,
}
use nullpipe.Std.Text.{Text}
use nullpipe.Types.{
  PeerId, PeerInfo, ChatEvent, message, peer_join, peer_leave, bootstrap_progress, room_ready,
  invite_created, room_closed, error,
}
use nullpipe.PeerMap.{same_id, same_id_iff}
use nullpipe.App.{App, DispMsg, add_peer, handle_event, truncate_onion, has_peer, retain_not}

-- Event after event, until one panics.
unfoldable pub receive : ℕ → List ChatEvent → App → Option App
receive now [] app = some app
receive now (ev ∷ evs) app = elim (handle_event now ev app) [
  | none ↦ none
  | some next ↦ receive now evs next
]

-- The names and texts of the messages that are not the program's own.
abbrev pub chats : List DispMsg → List (Text × Text)
chats [] = []
chats (m ∷ ms) = let rest = chats ms in if m.system then rest else (m.name, m.text) ∷ rest

abbrev pub chat_events : List ChatEvent → List (Text × Text)
chat_events [] = []
chat_events (message from name text ∷ evs) = (name, text) ∷ chat_events evs
chat_events (peer_join info ∷ evs) = chat_events evs
chat_events (peer_leave pid ∷ evs) = chat_events evs
chat_events (bootstrap_progress pct ∷ evs) = chat_events evs
chat_events (room_ready a p ∷ evs) = chat_events evs
chat_events (invite_created c ∷ evs) = chat_events evs
chat_events (room_closed ∷ evs) = chat_events evs
chat_events (error e ∷ evs) = chat_events evs

-- Whether a peer is in the room, by the last event about it.
abbrev pub present : PeerId → Bool → List ChatEvent → Bool
present id before [] = before
present id before (message from name text ∷ evs) = present id before evs
present id before (peer_join info ∷ evs) = present id (same_id info.id id || before) evs
present id before (peer_leave pid ∷ evs) = present id (not (same_id pid id) && before) evs
present id before (bootstrap_progress pct ∷ evs) = present id before evs
present id before (room_ready a p ∷ evs) = present id before evs
present id before (invite_created c ∷ evs) = present id before evs
present id before (room_closed ∷ evs) = present id before evs
present id before (error e ∷ evs) = present id before evs

chats-append : (ms : List DispMsg) (m : DispMsg) → chats (ms ++ m ∷ []) ≡ chats ms ++ chats (m ∷ [])
chats-append [] m = refl
chats-append (n ∷ ms) m = elim (Bool-cases n.system) [
  | inl e ↦ rw e (chats-append ms m)
  | inr ne ↦ rw ne (ap (◌∷◌ (n.name, n.text)) (chats-append ms m))
]

has_peer-append :
    (id : PeerId) (ps : List PeerInfo) (p : PeerInfo)
    → has_peer id (ps ++ p ∷ []) ≡ same_id p.id id || has_peer id ps
has_peer-append id [] p = ground arith
has_peer-append id (q ∷ ps) p = ground (arith, has_peer-append id ps p)

has_peer-retain_not :
    (id pid : PeerId) (ps : List PeerInfo)
    → has_peer id (retain_not pid ps) ≡ not (same_id pid id) && has_peer id ps
has_peer-retain_not id pid [] = ground arith
has_peer-retain_not id pid (q ∷ ps) = ground (
  arith,
  has_peer-retain_not id pid ps,
  same_id_iff q.id pid,
  same_id_iff q.id id,
  same_id_iff pid id,
)

has_peer-add_peer :
    (id : PeerId) (p : PeerInfo) (ps : List PeerInfo)
    → has_peer id (add_peer p ps) ≡ same_id p.id id || has_peer id ps
has_peer-add_peer id p ps = ground (arith, has_peer-append id ps p, same_id_iff p.id id)

-- One event, as a whole.
Effect : ChatEvent → App → App → Type 0
Effect ev app next =
    (chats next.msgs ≡ chats app.msgs ++ chat_events (ev ∷ []))
    × ((id : PeerId) → has_peer id next.peers ≡ present id (has_peer id app.peers) (ev ∷ []))

AfterEffect : ChatEvent → App → Option App → Type 0
AfterEffect ev app none = Unit
AfterEffect ev app (some next) = Effect ev app next

to_next :
    (ev : ChatEvent) (app next : App) (o : Option App)
    → AfterEffect ev app o
    → o ≡ some next
    → Effect ev app next
unfolding AfterEffect
to_next ev app next o h e = subst (AfterEffect ev app) e h

-- A message at the end, and peers as they were.
noted : (ms : List DispMsg) (m : DispMsg) → m.system ≡ true → chats (ms ++ m ∷ []) ≡ chats ms ++ []
noted ms m h = chats-append ms m ∙ (rw h refl)

handle_event-AfterEffect :
    (now : ℕ) (ev : ChatEvent) (app : App) → AfterEffect ev app (handle_event now ev app)
unfolding handle_event Effect AfterEffect
handle_event-AfterEffect now (message from name text) app = (chats-append app.msgs _, λ id. refl)
handle_event-AfterEffect now (peer_join info) app =
    (noted app.msgs _ refl, λ id. has_peer-add_peer id info app.peers)
handle_event-AfterEffect now (peer_leave pid) app =
    (noted app.msgs _ refl, λ id. has_peer-retain_not id pid app.peers)
handle_event-AfterEffect now (bootstrap_progress pct) app =
    (sym (append-nil (chats app.msgs)), λ id. refl)
handle_event-AfterEffect now (room_ready onion port) app =
    elim (Option-cases (truncate_onion onion)) [
      | inl e ↦ rw e tt
      | inr (short, e) ↦ rw e (noted app.msgs _ refl, λ id. refl)
    ]
handle_event-AfterEffect now (invite_created code) app = (noted app.msgs _ refl, λ id. refl)
handle_event-AfterEffect now room_closed app = (noted app.msgs _ refl, λ id. refl)
handle_event-AfterEffect now (error e) app = (noted app.msgs _ refl, λ id. refl)

receive-some :
    (now : ℕ) (ev : ChatEvent) (evs : List ChatEvent) (app last : App)
    → receive now (ev ∷ evs) app ≡ some last
    → (next : App) × (handle_event now ev app ≡ some next) × (receive now evs next ≡ some last)
unfolding receive
receive-some now ev evs app last h = elim (Option-cases (handle_event now ev app)) [
  | inl e ↦ let stopped : receive now (ev ∷ evs) app ≡ none = rw (e, receive) refl in cc
  | inr (next, e) ↦
      let went : receive now (ev ∷ evs) app ≡ receive now evs next = rw (e, receive) refl in
      (next, e, sym went ∙ h)
]

present-first :
    (id : PeerId) (b : Bool) (ev : ChatEvent) (evs : List ChatEvent)
    → present id b (ev ∷ evs) ≡ present id (present id b (ev ∷ [])) evs
present-first id b (message from name text) evs = refl
present-first id b (peer_join info) evs = refl
present-first id b (peer_leave pid) evs = refl
present-first id b (bootstrap_progress pct) evs = refl
present-first id b (room_ready onion port) evs = refl
present-first id b (invite_created code) evs = refl
present-first id b room_closed evs = refl
present-first id b (error e) evs = refl

chat_events-first :
    (ev : ChatEvent) (evs : List ChatEvent)
    → chat_events (ev ∷ evs) ≡ chat_events (ev ∷ []) ++ chat_events evs
chat_events-first (message from name text) evs = refl
chat_events-first (peer_join info) evs = refl
chat_events-first (peer_leave pid) evs = refl
chat_events-first (bootstrap_progress pct) evs = refl
chat_events-first (room_ready onion port) evs = refl
chat_events-first (invite_created code) evs = refl
chat_events-first room_closed evs = refl
chat_events-first (error e) evs = refl

-- After any events that do not panic, the messages of others and of the user are shown in the order of their
-- events, each once, behind those shown before, and a peer is listed exactly if the last event about it was a join.
pub receive-chats :
    (now : ℕ) (evs : List ChatEvent) (app last : App)
    → receive now evs app ≡ some last
    → (chats last.msgs ≡ chats app.msgs ++ chat_events evs)
      × ((id : PeerId) → has_peer id last.peers ≡ present id (has_peer id app.peers) evs)
unfolding Effect receive
receive-chats now [] app last h =
    let same_app : app ≡ last = cc in
    (rw same_app (sym (append-nil (chats last.msgs))), λ id. rw same_app refl)
receive-chats now (ev ∷ evs) app last h =
    let (next, stepped, rested) = receive-some now ev evs app last h in
    let (texts, listed) =
      to_next ev app next (handle_event now ev app) (handle_event-AfterEffect now ev app) stepped in
    let ih = receive-chats now evs next last rested in
    (
      ih.0
          ∙ (rw (texts, chat_events-first ev evs)
              (append_assoc (chats app.msgs) (chat_events (ev ∷ [])) (chat_events evs))),
      λ id. ih.1 id ∙ (rw (listed id) (sym (present-first id (has_peer id app.peers) ev evs))),
    )
