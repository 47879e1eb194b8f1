-- ===== src/Glossary/Terms.antt =====
-- close/src/glossary.rs: the terms of the glossary, in both registers.
use close_common.Common.{List, [], ◌∷◌}
use close_common.Common.Bytes.{Text, codes}

pub record Term : Type 0 where
  pub plain : Text
  pub wizard : Text
  pub kitchen_table : Text
  pub fine_print : Text

unfoldable pub glossary : List Term
glossary =
    record {
      plain = codes "commons";
      wizard = codes "repository / substrate";
      kitchen_table =
          codes
            "A shared folder that everyone in the group keeps a whole copy of, with its whole history.";
      fine_print =
          codes
            "A content-addressed DAG of sealed objects. Replicas hold ciphertext; holding it grants nothing.";
    }
    ∷ record {
      plain = codes "close";
      wizard = codes "capability realm";
      kitchen_table =
          codes
            "A locked drawer inside the shared folder. Everyone can see the drawer; only some people have keys.";
      fine_print =
          codes
            "The unit of key material. Objects are sealed per-close; boundaries appear as entries whose close differs from their parent's.";
    }
    ∷ record {
      plain = codes "outline";
      wizard = codes "presence facet";
      kitchen_table =
          codes
            "Knowing the drawer exists — its name, roughly how big it is — without any key at all.";
      fine_print =
          codes
            "Carried by the parent tree's entry card, filtered through the close's silhouette. No key exists for presence.";
    }
    ∷ record {
      plain = codes "label";
      wizard = codes "shape facet";
      kitchen_table =
          codes
            "Reading the label on the drawer: what kind of thing is inside, which version, how it's arranged.";
      fine_print =
          codes
            "The shape key opens shape cards and tree listings. It cannot be raised to a content key.";
    }
    ∷ record {
      plain = codes "everything";
      wizard = codes "content facet";
      kitchen_table = codes "Opening the drawer and reading the papers.";
      fine_print =
          codes
            "The content key opens payloads and derives the shape key downward. Reading implies seeing the label.";
    }
    ∷ record {
      plain = codes "ask the butler";
      wizard = codes "invoke power / actuator";
      kitchen_table =
          codes
            "You can't read the paper, but you may ask a trusted helper to use it for you — and the asking is written down.";
      fine_print =
          codes
            "A power on a grant, honored by an actuator that holds content. Every exercise leaves a signed receipt in the commons.";
    }
    ∷ record {
      plain = codes "sharing note";
      wizard = codes "grant (attenuable capability)";
      kitchen_table =
          codes
            "A note that says 'show Dana the label'. Dana can write a narrower note for someone else — never a wider one.";
      fine_print =
          codes
            "An offline-verifiable signed chain rooted in the close's steward, carrying wrapped key material for exactly the named facet.";
    }
    ∷ record {
      plain = codes "steward";
      wizard = codes "trust root of a close";
      kitchen_table =
          codes "The person a drawer answers to. Every valid sharing note traces back to them.";
      fine_print =
          codes
            "Ed25519 key that roots grant chains. Stewardship is power; large closes should move to quorum stewardship.";
    }
    ∷ record {
      plain = codes "changing the lock";
      wizard = codes "epoch rotation";
      kitchen_table =
          codes
            "New key, same drawer. People you keep sharing with get the new key; anyone left out keeps only what they already saw. Locks are not time machines.";
      fine_print =
          codes
            "New random content key; old keys published wrapped under new ones, so current members read all history and revoked members read none of the future.";
    }
    ∷ record {
      plain = codes "silhouette";
      wizard = codes "presence policy";
      kitchen_table =
          codes
            "How much the locked drawer shows through the glass: its outline, just a count, or nothing at all.";
      fine_print =
          codes
            "Per-close policy (open-outline / counted / dark) applied to entry cards in parent trees.";
    }
    ∷ record {
      plain = codes "keeping";
      wizard = codes "committing a snapshot";
      kitchen_table =
          codes
            "Pressing 'keep' writes today's version into the story forever. Nothing kept is ever lost.";
      fine_print =
          codes
            "Seals the working tree bottom-up into per-close envelopes and appends a commit to the DAG.";
    }
    ∷ record {
      plain = codes "dissolving folder";
      wizard = codes "ephemeral view";
      kitchen_table =
          codes
            "A photocopied folder made for one task — for an assistant, say — that stops opening when the task is done.";
      fine_print =
          codes
            "A derived commons sealed to a task-scoped close whose keys expire with the grant; the residue remains as an audit of what was shown.";
    }
    ∷ record {
      plain = codes "signpost";
      wizard = codes "cell (designation plane)";
      kitchen_table =
          codes
            "The kept history is the land; a signpost stands on it and points — 'production IS these snapshots'. Moving it never changes the land.";
      fine_print =
          codes
            "A permissioned, typed, journaled ref. Its value is a vector of pins into kept history; its declaration (wiring, guards) is a kept file; its value has current-value semantics, never merge semantics.";
    }
    ∷ record {
      plain = codes "pointing";
      wizard = codes "transition (SET power)";
      kitchen_table =
          codes
            "Moving a signpost. Seeing where it points and being allowed to move it are different keys — and every move leaves a footprint forever.";
      fine_print =
          codes
            "A signed, hash-chained object sealed into the DAG, embedding the mover's full grant chain. The mutable plane holds no new trusted state: the current value is the fold of the journal.";
    }
    ∷ record {
      plain = codes "the trail";
      wizard = codes "cell journal";
      kitchen_table =
          codes
            "Every move of a signpost, written down: who, when, why, and under whose signature.";
      fine_print =
          codes
            "The hash chain of transitions, tamper-evident end to end, readable at content facet; label holders see that moves happened, not where they point.";
    }
    ∷ record {
      plain = codes "guard";
      wizard = codes "transition predicate";
      kitchen_table =
          codes
            "A rule on the signpost itself — 'this one only moves forward' — that binds everyone, including whoever planted it, until the wiring is changed in the open.";
      fine_print =
          codes
            "Declared in the cell's versioned declaration, checked by pointer and replicas alike. v0 ships forward-only; approvals, attestations, and quorum moves are design.";
    }
    ∷ []
