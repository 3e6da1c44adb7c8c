-- ===== src/Communications/Responses.antt =====
-- `QueryResponse` of services/communications-service/app/schemas.py, filled from a query and its
-- messages, which come in the order that the database chooses (`select`): the relationship names
-- none.
use campus_hr_b.Prelude.{
  ℕ, ◌+◌, ◌∙◌, sym, ◌≡◌, refl, ap, String, Option, Bool, true, List, [], ◌∷◌, ◌++◌, map, ◌==◌,
  arith, Bool-cases, inl, inr,
}
use campus_hr_b.Table.{filter}
use campus_hr_b.Table.Count.{count, to_nat, count-append_one}
use campus_hr_b.Communications.Model.{Query, QueryMessage, Db}

pub record QueryMessageResponse : Type 0 where
  pub id : ℕ
  pub sender_id : ℕ
  pub body : String
  pub created_at : ℕ

pub record QueryResponse : Type 0 where
  pub id : ℕ
  pub student_id : ℕ
  pub coordinator_id : Option ℕ
  pub opportunity_id : Option ℕ
  pub subject : String
  pub status : String
  pub created_at : ℕ
  pub messages : List QueryMessageResponse

abbrev pub message_response : QueryMessage → QueryMessageResponse
message_response message = record {
  id = message.id;
  sender_id = message.sender_id;
  body = message.body;
  created_at = message.created_at;
}

-- the relationship `query.messages`
abbrev pub message_of : ℕ → QueryMessage → Bool
message_of query_id message = message.query_id == query_id

unfoldable pub messages_of :
    (List QueryMessage → List QueryMessage) → ℕ → List QueryMessage → List QueryMessageResponse
messages_of select query_id messages =
    map message_response (select (filter (message_of query_id) messages))

unfoldable pub query_response : (List QueryMessage → List QueryMessage) → Db → Query → QueryResponse
unfolding messages_of
query_response select db query = record {
  id = query.id;
  student_id = query.student_id;
  coordinator_id = query.coordinator_id;
  opportunity_id = query.opportunity_id;
  subject = query.subject;
  status = query.status;
  created_at = query.created_at;
  messages = messages_of select query.id db.messages;
}

-- the messages of a query, with a further one
filter-message_of :
    (k : ℕ) (messages : List QueryMessage) (message : QueryMessage)
    → message.query_id ≡ k
    → filter (message_of k) (messages ++ message ∷ [])
      ≡ filter (message_of k) messages ++ message ∷ []
unfolding filter
filter-message_of k [] message own =
    let hit : message_of k message ≡ true = ground (arith, own) in rw hit refl
filter-message_of k (m ∷ messages) message own = elim (Bool-cases (message_of k m)) [
  | inl hit ↦ rw hit (ap (λ rest. m ∷ rest) (filter-message_of k messages message own))
  | inr miss ↦ rw miss (filter-message_of k messages message own)
]

count-responses :
    (p : QueryMessageResponse → Bool) (messages : List QueryMessage)
    → count p (map message_response messages) ≡ count (λ m. p (message_response m)) messages
unfolding count
count-responses p [] = refl
count-responses p (m ∷ messages) = rw (count-responses p messages) refl

-- whatever order the database chooses, a further message of the query is one more
pub count-messages_of :
    (select : List QueryMessage → List QueryMessage)
    → ((p : QueryMessage → Bool) (xs : List QueryMessage) → count p (select xs) ≡ count p xs)
    → (k : ℕ) (messages : List QueryMessage) (message : QueryMessage) → message.query_id ≡ k
    → (p : QueryMessageResponse → Bool)
    → count p (messages_of select k (messages ++ message ∷ []))
      ≡ count p (messages_of select k messages ++ message_response message ∷ [])
unfolding messages_of
count-messages_of select keeps k messages message own p =
    let shows = λ (m : QueryMessage). p (message_response m) in
    let mine = filter (message_of k) messages in
    count-responses p (select (filter (message_of k) (messages ++ message ∷ [])))
    ∙ keeps shows (filter (message_of k) (messages ++ message ∷ []))
    ∙ ap (count shows) (filter-message_of k messages message own)
    ∙ count-append_one shows mine message
    ∙ sym (
        count-append_one p (map message_response (select mine)) (message_response message)
        ∙ ap (λ n. n + to_nat (p (message_response message)))
            (count-responses p (select mine) ∙ keeps shows mine))
