-- ===== src/Certificates/Polling.antt =====
-- The loop that waits for a transaction ends after ten rounds, and what it finds out.
use mathlib.Core.Path.{subst}
use chain_verse_backend.Base.{
  ℕ, zero, suc, ◌+◌, ◌≤◌, ◌<◌, ◌≡◌, ◌≢◌, ◌↔◌, ◌⊎◌, refl, sym, ap, ◌∙◌, inl, inr, String, false,
  some, arith, leb, ltb, Bool-cases, Option-cases,
}
use chain_verse_backend.Certificates.{
  TxStatus, Reply, replied, threw, Chain, poll, issue_certificate_on_chain, is_missing_text,
  confirmed_hash,
}

abbrev pub wait : Reply TxStatus
wait = replied TxStatus.not_found_yet

module _ (chain : Chain) (hash : String) where
  -- What the questions from `i` on come to, of which the loop asks up to `i + n`.
  abbrev Stops : ℕ → ℕ → Reply TxStatus → Type 0
  Stops n i r =
      (k : ℕ) × (i ≤ k)
      × (k ≤ i + n)
      × (r ≡ chain.ask hash k)
      × ((j : ℕ) → i ≤ j → j < k → chain.ask hash j ≡ wait)
      × ((k ≡ i + n) ⊎ (chain.ask hash k ≢ wait))

  at_once :
      (n i : ℕ) (r : Reply TxStatus)
      → r ≡ chain.ask hash i
      → ((i ≡ i + n) ⊎ (r ≢ wait))
      → Stops n i r
  at_once n i r e last = (
    i,
    omega arith,
    omega arith,
    e,
    λ j low high. absurd (omega arith),
    elim last [ inl there ↦ inl there | inr other ↦ inr (λ w. other (e ∙ w)) ],
  )

  poll-Stops :
      (n i : ℕ) (r : Reply TxStatus) → r ≡ chain.ask hash i → Stops n i (poll chain n i hash r)
  unfolding poll
  poll-Stops zero i r e = at_once zero i r e (inl (omega arith))
  poll-Stops (suc n) i (replied TxStatus.not_found_yet) e =
      let (k, low, high, here, before, last) = poll-Stops n (suc i) (chain.ask hash (suc i)) refl in
      (
        k,
        omega arith,
        omega arith,
        here,
        λ j from to. elim (Bool-cases (leb (suc i) j)) [
          | inl later ↦ before j (ground arith) to
          | inr now ↦ subst (λ (m : ℕ). chain.ask hash m ≡ wait) (ground arith) (sym e)
        ],
        elim last [ inl there ↦ inl (omega arith) | inr other ↦ inr other ],
      )
  poll-Stops (suc n) i (replied TxStatus.success) e =
      at_once (suc n) i (replied TxStatus.success) e (inr (λ w. cc))
  poll-Stops (suc n) i (replied TxStatus.failed) e =
      at_once (suc n) i (replied TxStatus.failed) e (inr (λ w. cc))
  poll-Stops (suc n) i threw e = at_once (suc n) i threw e (inr (λ w. cc))

  -- Where the first answers are `not_found_yet` up to one that is not, the loop comes to that one.
  poll_until :
      (n i k : ℕ)
      → i ≤ k
      → k ≤ i + n
      → ((j : ℕ) → i ≤ j → j < k → chain.ask hash j ≡ wait)
      → chain.ask hash k ≡ replied TxStatus.success
      → poll chain n i hash (chain.ask hash i) ≡ replied TxStatus.success
  poll_until n i k low high before good =
      let (m, from, to, here, waits, last) = poll-Stops n i (chain.ask hash i) refl in
      elim (Bool-cases (ltb m k)) [
        | inl early ↦ elim last [
          | inl end ↦ absurd (ground arith)
          | inr other ↦ absurd (other (before m from (ground arith)))
        ]
        | inr on_time ↦ elim (Bool-cases (ltb k m)) [
          | inl late ↦
              let both : replied TxStatus.success ≡ wait = sym good ∙ waits k low (ground arith) in
              cc
          | inr same ↦
              here
              ∙ subst (λ (j : ℕ). chain.ask hash j ≡ replied TxStatus.success) (ground arith) good
        ]
      ]

Reply-cases : {A : Type 0} (r : Reply A) → (r ≡ threw) ⊎ ((a : A) × (r ≡ replied a))
Reply-cases threw = inl refl
Reply-cases (replied a) = inr (a, refl)

confirmed_hash-eq-some :
    (hash h : String) (r : Reply TxStatus)
    → confirmed_hash hash r ≡ some h
    → (hash ≡ h) × (r ≡ replied TxStatus.success)
confirmed_hash-eq-some hash h (replied TxStatus.success) e = (ground arith, refl)
confirmed_hash-eq-some hash h (replied TxStatus.not_found_yet) e = cc
confirmed_hash-eq-some hash h (replied TxStatus.failed) e = cc
confirmed_hash-eq-some hash h threw e = cc

module _ (chain : Chain) (certificate student hash : String) where
  -- What it takes to issue a certificate: a configuration, a transaction that is sent, and success
  -- at one of eleven questions, up to which there was no answer yet.
  pub record Confirms : Type 0 where
    pub has_contract : is_missing_text chain.contract_address ≡ false
    pub has_secret : is_missing_text chain.secret_key ≡ false
    pub sent : chain.send certificate student ≡ replied (some hash)
    pub question : ℕ
    pub in_time : question ≤ 10
    pub waited : (j : ℕ) → j < question → chain.ask hash j ≡ wait
    pub succeeded : chain.ask hash question ≡ replied TxStatus.success

  issued : issue_certificate_on_chain chain certificate student ≡ some hash → Confirms
  unfolding issue_certificate_on_chain
  issued h = elim (Bool-cases (is_missing_text chain.contract_address)) [
    | inl bad ↦ ground arith
    | inr contract ↦ elim (Bool-cases (is_missing_text chain.secret_key)) [
      | inl bad ↦ ground arith
      | inr secret ↦ elim (Reply-cases (chain.send certificate student)) [
        | inl bad ↦ ground arith
        | inr (o, replied_to) ↦ elim (Option-cases o) [
          | inl bad ↦ ground arith
          | inr (other, accepted) ↦
              let done : confirmed_hash other (poll chain 10 0 other (chain.ask other 0))
                  ≡ some hash =
                ground arith in
              let (same, good) = confirmed_hash-eq-some other hash _ done in
              let (k, low, high, here, before, last) =
                poll-Stops chain other 10 0 (chain.ask other 0) refl in
              record {
                has_contract = contract;
                has_secret = secret;
                sent = replied_to ∙ ap replied (accepted ∙ ap some same);
                question = k;
                in_time = omega (arith, high);
                waited = λ j early.
                    subst (λ (h : String). chain.ask h j ≡ wait) same
                      (before j (omega arith) early);
                succeeded =
                    subst (λ (h : String). chain.ask h k ≡ replied TxStatus.success) same
                      (sym here ∙ good);
              }
        ]
      ]
    ]
  ]

  issuing : Confirms → issue_certificate_on_chain chain certificate student ≡ some hash
  unfolding issue_certificate_on_chain
  issuing c =
      let polled : poll chain 10 0 hash (chain.ask hash 0) ≡ replied TxStatus.success =
        poll_until chain hash 10 0 c.question (omega arith) (omega (arith, c.in_time))
          (λ j low high. c.waited j high) c.succeeded in
      ground (arith, c.has_contract, c.has_secret, c.sent, polled)

  -- The issue of a certificate ends with a hash exactly where a contract and a secret are
  -- configured, the transaction is sent with that hash, and one of the first eleven questions
  -- about it is answered by success, each before it by `not_found_yet`: the loop asks at most
  -- eleven times, and in every other case there is no hash.
  pub issue_certificate_on_chain-some_iff :
      (issue_certificate_on_chain chain certificate student ≡ some hash) ↔ Confirms
  issue_certificate_on_chain-some_iff = (issued, issuing)
