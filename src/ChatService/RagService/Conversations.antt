-- ===== src/ChatService/RagService/Conversations.antt =====
-- The histories in Redis as the sequence of turns that each session should hold.
use ai_document_analysis.Prelude.{
  ℕ, ◌+◌, ◌≡◌, ◌≤◌, ◌<◌, refl, sym, ◌∙◌, inl, inr, ◌⊎◌, true, ◌&&◌, List, [], ◌∷◌, ◌++◌, Text, ◌==◌,
  text-Eq, text_eq, text_eq_iff, Bool-cases, arith, if◌then◌else◌,
}
use ai_document_analysis.Shared.Exceptions.{Result, ok, ◌>>=◌}
use ai_document_analysis.Shared.Json.{Json, arr, items_of}
use ai_document_analysis.Shared.Redis.Server.{Redis}
use ai_document_analysis.ChatService.RagService.{turn, get_history, append_history}
use ai_document_analysis.ChatService.RagService.Sessions.{
  IsUuid, IsOther, append_history-IsAppended,
}

-- A turn of a session with the time when it is recorded.
pub record Recording : Type 0 where
  pub at : ℕ
  pub owner_id : Text
  pub session_id : Text
  pub question : Text
  pub answer : Json

-- What the histories are to be: the turns of each user's sessions.
abbrev pub Histories : Type 0
Histories = Text → Text → List Json

abbrev pub record_turn : Recording → Histories → Histories
record_turn r h owner sid =
    if r.owner_id == owner && r.session_id == sid
    then h owner sid ++ turn r.question r.answer ∷ []
    else h owner sid

abbrev pub record_turns : List Recording → Histories → Histories
record_turns [] h = h
record_turns (r ∷ rs) h = record_turns rs (record_turn r h)

-- The time of the last one.
abbrev pub last_at : ℕ → List Recording → ℕ
last_at start [] = start
last_at start (r ∷ rs) = last_at r.at rs

-- Recordings of users, in the order of their times, from one time until before another.
abbrev pub AreWithin : ℕ → ℕ → List Recording → Type 0
AreWithin start limit [] = start ≤ limit
AreWithin start limit (r ∷ rs) =
    IsUuid r.owner_id × (start ≤ r.at) × (r.at < limit) × AreWithin r.at limit rs

module _ (R : Redis) where
  open R use {Server}

  abbrev pub append_all : List Recording → Server → Result Server
  append_all [] s = ok s
  append_all (r ∷ rs) s =
      append_history R s r.at r.owner_id r.session_id r.question r.answer >>= λ s'. append_all rs s'

  -- From one time until before another, every user's history reads as these turns.
  abbrev pub Represents : ℕ → ℕ → Server → Histories → Type 0
  Represents start limit s h =
      (t : ℕ) (owner sid : Text)
      → start ≤ t
      → t < limit
      → IsUuid owner
      → get_history R s t owner sid ≡ arr (items_of (h owner sid))

  record_turn_other :
      (r : Recording) (h : Histories) (owner sid : Text)
      → IsOther r.owner_id r.session_id owner sid
      → record_turn r h owner sid ≡ h owner sid
  record_turn_other r h owner sid (inl apart) = ground (arith, text_eq_iff r.owner_id owner, apart)
  record_turn_other r h owner sid (inr apart) = ground (arith, text_eq_iff r.session_id sid, apart)

  record_turn_self :
      (r : Recording) (h : Histories) (owner sid : Text)
      → r.owner_id ≡ owner
      → r.session_id ≡ sid
      → record_turn r h owner sid ≡ h owner sid ++ turn r.question r.answer ∷ []
  record_turn_self r h owner sid same same' =
      let o : text_eq r.owner_id owner ≡ true = (text_eq_iff r.owner_id owner).1 same in
      let i : text_eq r.session_id sid ≡ true = (text_eq_iff r.session_id sid).1 same' in
      rw (o, i) refl

  -- Either the turn is one of the session, or the session is another.
  same_or_IsOther :
      (r : Recording) (owner sid : Text)
      → ((r.owner_id ≡ owner) × (r.session_id ≡ sid)) ⊎ IsOther r.owner_id r.session_id owner sid
  same_or_IsOther r owner sid = elim (Bool-cases (text_eq r.owner_id owner)) [
    | inr other ↦ inr (inl (λ e. cc ((text_eq_iff r.owner_id owner).1 e, other)))
    | inl same ↦ elim (Bool-cases (text_eq r.session_id sid)) [
      | inr other ↦ inr (inr (λ e. cc ((text_eq_iff r.session_id sid).1 e, other)))
      | inl same' ↦
          inl ((text_eq_iff r.owner_id owner).0 same, (text_eq_iff r.session_id sid).0 same')
    ]
  ]

  -- What a history reads once the turn is recorded.
  append_history-reads :
      (start limit : ℕ) (s s' : Server) (h : Histories) (r : Recording)
      → limit ≤ start + 86400000
      → IsUuid r.owner_id
      → start ≤ r.at
      → Represents start limit s h
      → append_history R s r.at r.owner_id r.session_id r.question r.answer ≡ ok s'
      → Represents r.at limit s' (record_turn r h)
  append_history-reads start limit s s' h r day ho from reads kept t owner sid later before hp =
      let there = reads r.at r.owner_id r.session_id from (omega arith) ho in
      let (s'', kept', own, others) =
        append_history-IsAppended R s r.at t r.owner_id r.session_id r.question r.answer
          (h r.owner_id r.session_id) ho later (omega arith) there in
      let same_server : s' ≡ s'' = cc in
      elim (same_or_IsOther r owner sid) [
        | inl (same, same') ↦
            rw (same_server, record_turn_self r h owner sid same same')
              (rw (sym same, sym same') own)
        | inr apart ↦
            rw (same_server, record_turn_other r h owner sid apart)
              ((others owner sid hp).0 apart ∙ reads t owner sid (omega arith) before hp)
      ]

  append_history-Represents :
      (start limit : ℕ) (s : Server) (h : Histories) (r : Recording)
      → limit ≤ start + 86400000
      → IsUuid r.owner_id
      → start ≤ r.at
      → r.at < limit
      → Represents start limit s h
      → (s' : Server) × (append_history R s r.at r.owner_id r.session_id r.question r.answer
          ≡ ok s')
        × Represents r.at limit s' (record_turn r h)
  append_history-Represents start limit s h r day ho from before reads =
      let there = reads r.at r.owner_id r.session_id from before ho in
      let (s', kept, own, others) =
        append_history-IsAppended R s r.at r.at r.owner_id r.session_id r.question r.answer
          (h r.owner_id r.session_id) ho (omega arith) (omega arith) there in
      (s', kept, append_history-reads start limit s s' h r day ho from reads kept)

  -- If every user's history reads as some sequences of turns for at most a day, and turns of users
  -- are then recorded in the order of their times, each recording succeeds. From the last one on
  -- every user's histories read, for the rest of that time, as these sequences with the turns of
  -- their own session appended.
  pub append_all-Represents :
      (start limit : ℕ) (s : Server) (h : Histories) (rs : List Recording)
      → limit ≤ start + 86400000
      → AreWithin start limit rs
      → Represents start limit s h
      → (s' : Server) × (append_all rs s ≡ ok s')
        × Represents (last_at start rs) limit s' (record_turns rs h)
  append_all-Represents start limit s h [] day within reads = (s, refl, reads)
  append_all-Represents start limit s h (r ∷ rs) day (ho, from, before, rest) reads =
      let (s1, kept, reads1) =
        append_history-Represents start limit s h r day ho from before reads in
      let (s', done, reads') =
        append_all-Represents r.at limit s1 (record_turn r h) rs (omega arith) rest reads1 in
      (s', rw kept done, reads')
