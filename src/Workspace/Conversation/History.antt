-- ===== src/Workspace/Conversation/History.antt =====
-- What `get_project_conversation` (db_store.py) hands to the pipeline as the history of a chat.
use mathlib.Core.List.{reverse}
use native.Mathlib.Numerals.{add-one}
use rag_llm.Prelude.{
  zero, suc, ℕ, ◌+◌, ◌≤◌, ◌<◌, String, ◌≡◌, ◌↔◌, refl, ap, subst, and_true, Member-map, ◌&&◌, Bool,
  true, false, Option, none, some, List, [], ◌∷◌, map, arith, ◌⊎◌, inl, inr, Member, length, take,
  min, ◌==◌, string_eq, option_eq, eq_iff, Option-cases,
}
use rag_llm.Workspace.Table.{find, select, order_by_desc, order_with, later, Member-select}
use rag_llm.Workspace.Table.Sorting.{
  IsSorted, Member-order_with, order_with-Member, length-order_with, order_with-IsSorted,
  Member-take, length-take, take_first, take-IsSorted, Member-reverse, reverse-Member,
  length-reverse, reverse-IsSorted,
}
use rag_llm.Workspace.Visible.{get_chat-some}
use rag_llm.Workspace.Scope.{Scope}
use rag_llm.Workspace.Row.{Chat, Message, Tables}
use rag_llm.Workspace.Chat.{chat_visible, get_chat}
use rag_llm.Workspace.Message.{is_live_message}
use rag_llm.Workspace.Conversation.{
  Turn, turn, in_chat, is_complete, history_chat, history_message, history, is_later, user_message,
  active_rows, bounded_limit, Conversation, conversation_of, get_project_conversation,
}

-- The newest messages of a pool, as many as a limit allows, oldest first.
pub record IsRecent (n : ℕ) (pool chosen : List Message) : Type 0 where
  pub drawn : (m : Message) → Member m chosen → Member m pool
  pub size : length chosen ≡ min n (length pool)
  pub newest :
      (m : Message)
      → Member m pool
      → Member m chosen ⊎ ((r : Message) → Member r chosen → m.created_at ≤ r.created_at)
  pub ascending : IsSorted (λ a b. a.created_at ≤ b.created_at) chosen

-- An order that puts newer messages first, reversed and cut to the limit.
module _ (before : Message → Message → Bool)
    (first : (a b : Message) → before a b ≡ true → b.created_at ≤ a.created_at)
    (second : (a b : Message) → before a b ≡ false → a.created_at ≤ b.created_at) where
  listing-IsSorted :
      (pool : List Message) → IsSorted (λ a b. b.created_at ≤ a.created_at) (order_with before pool)
  listing-IsSorted =
      order_with-IsSorted before (λ a b. b.created_at ≤ a.created_at) (λ a b c h k. omega arith)
        first second

  newest-IsRecent :
      (n : ℕ) (pool : List Message) → IsRecent n pool (reverse (take n (order_with before pool)))
  newest-IsRecent n pool = record {
    drawn = λ m k. Member-order_with before m pool (
        Member-take m n (order_with before pool)
          (Member-reverse m (take n (order_with before pool)) k));
    size = omega (
      arith,
      length-reverse (take n (order_with before pool)),
      length-take n (order_with before pool),
      length-order_with before pool,
    );
    newest = λ m k.
        elim (take_first (λ a b. b.created_at ≤ a.created_at) n (order_with before pool)
          (listing-IsSorted pool) m (order_with-Member before m pool k)) [
            | inl j ↦ inl (reverse-Member m (take n (order_with before pool)) j)
            | inr j ↦ inr (λ r i. j r (Member-reverse r (take n (order_with before pool)) i))
          ];
    ascending =
        reverse-IsSorted (λ a b. a.created_at ≤ b.created_at) (take n (order_with before pool))
          (take-IsSorted (λ a b. b.created_at ≤ a.created_at) n (order_with before pool)
            (listing-IsSorted pool));
  }

history-IsRecent :
    (scope : Scope) (id : String) (project : Option String) (n : ℕ) (s : Tables)
    → IsRecent n
        (select (history_message scope id project s) s.messages)
        (history scope id project n s)
unfolding history order_by_desc
history-IsRecent scope id project n s =
    newest-IsRecent (later (λ m. m.created_at)) (λ a b h. ground arith) (λ a b h. ground arith) n
      (select (history_message scope id project s) s.messages)

is_later-before : (a b : Message) → is_later a b ≡ true → b.created_at ≤ a.created_at
unfolding is_later
is_later-before a b h = ground arith

is_later-after : (a b : Message) → is_later a b ≡ false → a.created_at ≤ b.created_at
unfolding is_later
is_later-after a b h = ground arith

take-take-suc : (n : ℕ) (ms : List Message) → take n (take (suc n) ms) ≡ take n ms
unfolding take
take-take-suc zero ms = refl
take-take-suc (suc n) [] = refl
take-take-suc (suc n) (m ∷ ms) = ap (◌∷◌ m) (take-take-suc n ms)

active-IsRecent :
    (scope : Scope) (id : String) (n : ℕ) (s : Tables)
    → IsRecent n
        (select (user_message scope id s) s.messages)
        (reverse (take n (active_rows scope id (n + 1) s)))
unfolding active_rows
active-IsRecent scope id n s =
    rw
      (add-one, take-take-suc n (order_with is_later (select (user_message scope id s) s.messages)))
      (newest-IsRecent is_later is_later-before is_later-after n
        (select (user_message scope id s) s.messages))

length-active_rows :
    (scope : Scope) (id : String) (n : ℕ) (s : Tables)
    → length (active_rows scope id n s)
      ≡ min n (length (select (user_message scope id s) s.messages))
unfolding active_rows
length-active_rows scope id n s = omega (
  arith,
  length-take n (order_with is_later (select (user_message scope id s) s.messages)),
  length-order_with is_later (select (user_message scope id s) s.messages),
)

-- What the call hands back of a chat.
pub record IsConversation (scope : Scope) (c : Chat) (limit : ℕ) (s : Tables) (v : Conversation)
    : Type 0 where
  pub visible : chat_visible scope c ≡ true
  pub history_turns :
      (chosen : List Message) × (v.messages ≡ map (turn s) chosen)
      × IsRecent
          (bounded_limit limit)
          (select (history_message scope c.id c.project_id s) s.messages)
          chosen
  pub user_turns :
      (chosen : List Message) × (v.active_user_messages ≡ map (turn s) chosen)
      × IsRecent (bounded_limit limit) (select (user_message scope c.id s) s.messages) chosen
  pub truncated :
      (v.active_user_history_truncated ≡ true)
      ↔ (bounded_limit limit < length (select (user_message scope c.id s) s.messages))

conversation_of-IsConversation :
    (scope : Scope) (c : Chat) (limit : ℕ) (s : Tables)
    → chat_visible scope c ≡ true
    → IsConversation scope c limit s (conversation_of scope c limit s)
unfolding conversation_of history active_rows
conversation_of-IsConversation scope c limit s seen = record {
  visible = seen;
  history_turns = (
    history scope c.id c.project_id (bounded_limit limit) s,
    refl,
    history-IsRecent scope c.id c.project_id (bounded_limit limit) s,
  );
  user_turns = (
    reverse (take (bounded_limit limit) (active_rows scope c.id (bounded_limit limit + 1) s)),
    refl,
    active-IsRecent scope c.id (bounded_limit limit) s,
  );
  truncated = (
    (λ h. ground (arith, length-active_rows scope c.id (bounded_limit limit + 1) s)),
    (λ h. ground (arith, length-active_rows scope c.id (bounded_limit limit + 1) s)),
  );
}

-- A returned conversation is one of a chat that the caller may see. Its history is the newest
-- complete messages of the chat or, if the chat stands in a project, of the caller's chats in this
-- project: as many as the limit allows, oldest first. So are the user's turns of this chat alone,
-- and they are said to be truncated exactly if there are more than the limit allows.
pub conversation_lem :
    (scope : Scope) (id : String) (limit : ℕ) (s : Tables) (v : Conversation)
    → get_project_conversation scope id limit s ≡ some v
    → (c : Chat) × (get_chat scope id s ≡ some c) × IsConversation scope c limit s v
unfolding get_project_conversation
conversation_lem scope id limit s v h = elim (Option-cases (get_chat scope id s)) [
  | inl e ↦ absurd (cc (rw (e, get_project_conversation) at h))
  | inr (c, e) ↦ found c e (rw (e, get_project_conversation) at h)
]
  where
    found :
        (c : Chat)
        → get_chat scope id s ≡ some c
        → ◌≡◌ {A = Option Conversation} (some (conversation_of scope c limit s)) (some v)
        → (c : Chat) × (get_chat scope id s ≡ some c) × IsConversation scope c limit s v
    found c e same = (
      c,
      e,
      subst (IsConversation scope c limit s) (cc)
          (conversation_of-IsConversation scope c limit s (get_chat-some scope id s c e).1),
    )

-- A live and complete message of a chat that the caller may see.
abbrev pub InView : Scope → Tables → Message → Type 0
InView scope s m =
    Member m s.messages
    × (is_live_message m ≡ true)
    × (m.status ≡ "complete")
    × ((c : Chat) × (find (λ d. d.id) m.chat_id s.chats ≡ some c) × (chat_visible scope c ≡ true))

in_chat-true :
    (f : Chat → Bool) (s : Tables) (m : Message)
    → in_chat f s m ≡ true
    → (c : Chat) × (find (λ d. d.id) m.chat_id s.chats ≡ some c) × (f c ≡ true)
unfolding in_chat
in_chat-true f s m h = elim (Option-cases (find (λ d. d.id) m.chat_id s.chats)) [
  | inl e ↦ absurd (cc (rw (e, in_chat) at h))
  | inr (c, e) ↦ (c, e, rw (e, in_chat) at h)
]

history_chat-visible :
    (scope : Scope) (id : String) (project : Option String) (c : Chat)
    → history_chat scope id project c ≡ true
    → chat_visible scope c ≡ true
unfolding history_chat
history_chat-visible scope id none c h = (and_true (c.id == id) (chat_visible scope c) h).1
history_chat-visible scope id (some p) c h =
    (and_true (c.project_id == some p) (chat_visible scope c) h).1

module _ (scope : Scope) (id : String) (project : Option String) (s : Tables) (m : Message)
    (here : Member m s.messages) where
  complete-InView :
      in_chat (history_chat scope id project) s m ≡ true → is_complete m ≡ true → InView scope s m
  unfolding is_complete
  complete-InView h k =
      let (live, complete) = and_true (is_live_message m) (m.status == "complete") k in
      let (c, e, seen) = in_chat-true (history_chat scope id project) s m h in
      (
        here,
        live,
        (eq_iff m.status "complete").0 complete,
        (c, e, history_chat-visible scope id project c seen),
      )

  history_message-InView : history_message scope id project s m ≡ true → InView scope s m
  unfolding history_message
  history_message-InView h =
      let (p, q) = and_true (in_chat (history_chat scope id project) s m) (is_complete m) h in
      complete-InView p q

user_message-InView :
    (scope : Scope) (id : String) (s : Tables) (m : Message)
    → Member m s.messages
    → user_message scope id s m ≡ true
    → InView scope s m × (m.role ≡ "user")
unfolding user_message
user_message-InView scope id s m here h =
    let (p, r) =
      and_true (in_chat (history_chat scope id none) s m && is_complete m) (m.role == "user") h in
    let (q, c) = and_true (in_chat (history_chat scope id none) s m) (is_complete m) p in
    (complete-InView scope id none s m here q c, (eq_iff m.role "user").0 r)

-- Whatever a conversation hands to the pipeline is a live and complete message of a chat that the
-- caller may see; among the turns of the active user there are only the user's.
pub conversation-InView :
    (scope : Scope) (id : String) (limit : ℕ) (s : Tables) (v : Conversation)
    → get_project_conversation scope id limit s ≡ some v
    → ((t : Turn) → Member t v.messages → InView scope s t.message)
      × ((t : Turn)
          → Member t v.active_user_messages
          → InView scope s t.message × (t.message.role ≡ "user"))
unfolding turn
conversation-InView scope id limit s v h =
    let (c, _, k) = conversation_lem scope id limit s v h in
    (
      (λ t m.
          let (x, n, e) = Member-map (turn s) t k.history_turns.0 (rw k.history_turns.1 at m) in
          let (here, p) =
            Member-select (history_message scope c.id c.project_id s) x s.messages
              (k.history_turns.2.drawn x n) in
          rw e (history_message-InView scope c.id c.project_id s x here p)),
      (λ t m.
          let (x, n, e) = Member-map (turn s) t k.user_turns.0 (rw k.user_turns.1 at m) in
          let (here, p) =
            Member-select (user_message scope c.id s) x s.messages (k.user_turns.2.drawn x n) in
          rw e (user_message-InView scope c.id s x here p)),
    )
