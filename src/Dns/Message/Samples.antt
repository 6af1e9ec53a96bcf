-- ===== src/Dns/Message/Samples.antt =====
-- A response with an alias and an address, and the labels of a name.
use shadowvpn_ios.Prelude.{ℕ, List, [], ◌∷◌, All, arith}
use shadowvpn_ios.Text.{codes}
use shadowvpn_ios.Dns.Labels.{IsLabel}
use shadowvpn_ios.Dns.Message.{Name, root, pointer, Answer, Message, IsMessage, IsNameEnd}

-- `www.a` is another name of `a`, which has an address.
abbrev pub alias : Answer
alias = record {
  owner = record { labels = []; ending = pointer 0 12 };
  rtype = 5;
  rclass = 1;
  ttl = 60;
  rdata = 1 ∷ b'a' ∷ 0 ∷ [];
}

abbrev pub found : Answer
found = record {
  owner = record { labels = codes "a" ∷ []; ending = root };
  rtype = 1;
  rclass = 1;
  ttl = 30;
  rdata = 1 ∷ 2 ∷ 3 ∷ 4 ∷ [];
}

abbrev pub asked : Name
asked = record { labels = codes "www" ∷ codes "a" ∷ []; ending = root }

abbrev pub reply : Message
reply = record {
  id = 0x1234;
  flags = 0x8180;
  questions = record { qname = asked; qtype = 1; qclass = 1 } ∷ [];
  answers = alias ∷ found ∷ [];
  authorities = 0;
  additionals = 0;
}

pub reply-IsMessage : IsMessage reply
unfolding IsNameEnd
reply-IsMessage = record {
  question_count = omega arith;
  answer_count = omega arith;
  each_question = (record { each_label = omega arith; end_ok = tt }, tt);
  each_answer = (
    record {
      owner_ok = record { each_label = tt; end_ok = omega arith };
      rtype_ok = omega arith;
      rclass_ok = omega arith;
      ttl_ok = omega arith;
      rdata_ok = omega arith;
    },
    (
      record {
        owner_ok = record { each_label = omega arith; end_ok = tt };
        rtype_ok = omega arith;
        rclass_ok = omega arith;
        ttl_ok = omega arith;
        rdata_ok = omega arith;
      },
      tt,
    ),
  );
}

abbrev pub labels : List (List ℕ)
labels = codes "A" ∷ codes "b" ∷ []

pub labels-IsLabel : All IsLabel labels
labels-IsLabel = (
  record {
    some_bytes = omega arith;
    short = omega arith;
    ascii = omega arith;
    dotless = omega arith;
  },
  (
    record {
      some_bytes = omega arith;
      short = omega arith;
      ascii = omega arith;
      dotless = omega arith;
    },
    tt,
  ),
)
