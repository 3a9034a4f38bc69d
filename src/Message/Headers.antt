-- ===== src/Message/Headers.antt =====
-- Which header field a checksum is made of.
use gdcc.Base.{
  ℕ, ◌≡◌, refl, sym, ap, ap₂, ◌∙◌, Bool, true, false, Option, some, none, inl, inr, Bool-cases,
  List, [], ◌∷◌, Bytes, codes, ◌==◌, ==_iff, if◌then◌else◌, length, drop, get_or, arith,
}
use gdcc.Hash.{Digest}
use gdcc.Header.{to_lower, str2ck}
use gdcc.Message.{
  Noticed, nothing_noticed, has_prefix_fold, envelope, parse_unix_from, parse_return_path, notice,
  notice_all,
}

-- The checksum of the last field with that name, or the value before.
pub last_value : Digest → Bytes → List Bytes → Option Bytes → Option Bytes
last_value md5 name [] before = before
last_value md5 name (f ∷ fs) before =
    last_value md5 name fs
      (if has_prefix_fold f name then some (str2ck md5 [] (drop (length name) f)) else before)

pub or_later : Option Bytes → Option Bytes → Option Bytes
or_later (some v) later = some v
or_later none later = later

-- The sender of the first Return-Path: field that has one.
pub first_return_path : List Bytes → Option Bytes
first_return_path [] = none
first_return_path (f ∷ fs) = or_later (parse_return_path f) (first_return_path fs)

-- The sender of the UNIX line, where the first field is one, else of a Return-Path: field.
pub sender_of : List Bytes → Option Bytes
sender_of [] = none
sender_of (f ∷ fs) = or_later (parse_unix_from f) (first_return_path (f ∷ fs))

first_sender : Bool → List Bytes → Option Bytes
first_sender first [] = none
first_sender first (f ∷ fs) =
    let later = first_sender false fs in elim (envelope first f) [ some v ↦ some v | none ↦ later ]

has_prefix_fold-first :
    (f : Bytes) (p : ℕ) (ps : Bytes)
    → has_prefix_fold f (p ∷ ps) ≡ true
    → to_lower (get_or f 0 0) ≡ to_lower p
unfolding has_prefix_fold
has_prefix_fold-first [] p ps h = absurd (ground (arith, h))
has_prefix_fold-first (c ∷ cs) p ps h = (==_iff (to_lower c) (to_lower p)).0 (ground arith)

-- One field has one name at most.
one_name :
    (f : Bytes) (p q : ℕ) (ps qs : Bytes)
    → (to_lower p == to_lower q) ≡ false
    → has_prefix_fold f (p ∷ ps) ≡ true
    → has_prefix_fold f (q ∷ qs) ≡ false
one_name f p q ps qs h fp = elim (Bool-cases (has_prefix_fold f (q ∷ qs))) [
  | inr differs ↦ differs
  | inl also ↦
      let e : to_lower p ≡ to_lower q =
        sym (has_prefix_fold-first f p ps fp) ∙ has_prefix_fold-first f q qs also in
      absurd (ground (arith, ==_iff (to_lower p) (to_lower q)))
]

abbrev when_named : Digest → Bytes → Bytes → Option Bytes → Option Bytes
when_named md5 name f before =
    if has_prefix_fold f name then some (str2ck md5 [] (drop (length name) f)) else before

-- The switch on the name of a field.
named_step :
    (md5 : Digest) (f : Bytes) (n : Noticed)
    → (if has_prefix_fold f (codes "From:")
        then record n { from_sum = some (str2ck md5 [] (drop 5 f)) }
        else if has_prefix_fold f (codes "Message-ID:")
        then record n { msg_id_sum = some (str2ck md5 [] (drop 11 f)) }
        else if has_prefix_fold f (codes "Received:")
        then record n { recv_sum = some (str2ck md5 [] (drop 9 f)) }
        else n)
      ≡ record {
        from_sum = when_named md5 (codes "From:") f n.from_sum;
        msg_id_sum = when_named md5 (codes "Message-ID:") f n.msg_id_sum;
        recv_sum = when_named md5 (codes "Received:") f n.recv_sum;
        env_from = n.env_from;
      }
named_step md5 f n =
    let fm = one_name f b'F' b'M' (codes "rom:") (codes "essage-ID:") (unfold to_lower in refl) in
    let fr = one_name f b'F' b'R' (codes "rom:") (codes "eceived:") (unfold to_lower in refl) in
    let mr =
      one_name f b'M' b'R' (codes "essage-ID:") (codes "eceived:") (unfold to_lower in refl) in
    elim (Bool-cases (has_prefix_fold f (codes "From:"))) [
      | inl from ↦ rw (from, fm from, fr from) refl
      | inr not_from ↦ elim (Bool-cases (has_prefix_fold f (codes "Message-ID:"))) [
        | inl id ↦ rw (not_from, id, mr id) refl
        | inr not_id ↦ elim (Bool-cases (has_prefix_fold f (codes "Received:"))) [
          | inl recv ↦ rw (not_from, not_id, recv) refl
          | inr not_recv ↦ rw (not_from, not_id, not_recv) refl
        ]
      ]
    ]

-- What one field changes.
notice_step :
    (md5 : Digest) (first : Bool) (f : Bytes) (a b c e : Option Bytes)
    → notice md5 first f (record { from_sum = a; msg_id_sum = b; recv_sum = c; env_from = e })
      ≡ record {
        from_sum = when_named md5 (codes "From:") f a;
        msg_id_sum = when_named md5 (codes "Message-ID:") f b;
        recv_sum = when_named md5 (codes "Received:") f c;
        env_from = or_later e (envelope first f);
      }
unfolding notice or_later
notice_step md5 first f a b c (some v) = named_step md5 f _
notice_step md5 first f a b c none =
    let before : Noticed = record { from_sum = a; msg_id_sum = b; recv_sum = c; env_from = none } in
    ap (λ (n : Noticed). record n { env_from = envelope first f }) (named_step md5 f before)

or_later_senders :
    (e s later : Option Bytes)
    → or_later (or_later e s) later ≡ or_later e (elim s [ some v ↦ some v | none ↦ later ])
unfolding or_later
or_later_senders (some v) s later = refl
or_later_senders none (some v) later = refl
or_later_senders none none later = refl

notice_all_from :
    (md5 : Digest) (first : Bool) (fs : List Bytes) (a b c e : Option Bytes)
    → notice_all md5 first fs (record { from_sum = a; msg_id_sum = b; recv_sum = c; env_from = e })
      ≡ record {
        from_sum = last_value md5 (codes "From:") fs a;
        msg_id_sum = last_value md5 (codes "Message-ID:") fs b;
        recv_sum = last_value md5 (codes "Received:") fs c;
        env_from = or_later e (first_sender first fs);
      }
unfolding notice_all last_value first_sender
notice_all_from md5 first [] a b c (some v) = unfold or_later in refl
notice_all_from md5 first [] a b c none = unfold or_later in refl
notice_all_from md5 first (f ∷ fs) a b c e =
    ap (notice_all md5 false fs) (notice_step md5 first f a b c e)
    ∙ notice_all_from md5 false fs (when_named md5 (codes "From:") f a)
        (when_named md5 (codes "Message-ID:") f b) (when_named md5 (codes "Received:") f c)
        (or_later e (envelope first f))
    ∙ ap
        (λ s. record {
          from_sum = last_value md5 (codes "From:") (f ∷ fs) a;
          msg_id_sum = last_value md5 (codes "Message-ID:") (f ∷ fs) b;
          recv_sum = last_value md5 (codes "Received:") (f ∷ fs) c;
          env_from = s;
        })
        (or_later_senders e (envelope first f) (first_sender false fs))

sender_or : Option Bytes → Option Bytes → Option Bytes
sender_or o later = elim o [ some v ↦ some v | none ↦ later ]

sender_or_lem : (o later : Option Bytes) → sender_or o later ≡ or_later o later
unfolding sender_or or_later
sender_or_lem (some v) later = refl
sender_or_lem none later = refl

envelope-first : (f : Bytes) → envelope true f ≡ or_later (parse_unix_from f) (parse_return_path f)
unfolding envelope sender_or
envelope-first f = sender_or_lem (parse_unix_from f) (parse_return_path f)

or_later_assoc : (a b c : Option Bytes) → or_later (or_later a b) c ≡ or_later a (or_later b c)
unfolding or_later
or_later_assoc (some v) b c = refl
or_later_assoc none b c = refl

first_sender-return_path : (fs : List Bytes) → first_sender false fs ≡ first_return_path fs
unfolding first_sender first_return_path envelope sender_or
first_sender-return_path [] = refl
first_sender-return_path (f ∷ fs) =
    sender_or_lem (parse_return_path f) (first_sender false fs)
    ∙ ap (or_later (parse_return_path f)) (first_sender-return_path fs)

first_sender-sender_of : (fs : List Bytes) → first_sender true fs ≡ sender_of fs
unfolding first_sender sender_of first_return_path sender_or
first_sender-sender_of [] = refl
first_sender-sender_of (f ∷ fs) =
    sender_or_lem (envelope true f) (first_sender false fs)
    ∙ ap₂ or_later (envelope-first f) (first_sender-return_path fs)
    ∙ or_later_assoc (parse_unix_from f) (parse_return_path f) (first_return_path fs)

-- The checksums of From:, Message-ID: and Received: are those of the last field with that name, and
-- the envelope sender is that of the UNIX line "From ", where the first field is one, else that of
-- the first Return-Path: field that has one; a UNIX line further on does not count.
pub notice_all-last_value :
    (md5 : Digest) (fs : List Bytes)
    → notice_all md5 true fs nothing_noticed ≡ record {
      from_sum = last_value md5 (codes "From:") fs none;
      msg_id_sum = last_value md5 (codes "Message-ID:") fs none;
      recv_sum = last_value md5 (codes "Received:") fs none;
      env_from = sender_of fs;
    }
unfolding or_later
notice_all-last_value md5 fs =
    notice_all_from md5 true fs none none none none
    ∙ ap
        (λ (s : Option Bytes). record {
          from_sum = last_value md5 (codes "From:") fs none;
          msg_id_sum = last_value md5 (codes "Message-ID:") fs none;
          recv_sum = last_value md5 (codes "Received:") fs none;
          env_from = s;
        })
        (first_sender-sender_of fs)
