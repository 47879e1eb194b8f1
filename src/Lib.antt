-- ===== src/Lib.antt =====
-- CloseCommon: a commons of sealed drawers ("closes"), where everyone may hold and relay the
-- ciphertext, and grants say who may see that a thing is there (presence), read its label (shape)
-- or read it (content).
--
-- How the parts work together. A close keeps a content key for each epoch; changing its lock makes
-- the key of the next epoch and appends to a public chain the old keys, wrapped under the new ones,
-- so that new keys lead back to old epochs. The shape key of an epoch derives from its content key.
-- An object is sealed under keys that derive from these and from the keyed hash of its plaintext. A
-- grant carries one of the keys, wrapped to its holder, and its terms; a holder hands on narrower
-- grants, and the whole chain is checked offline against the steward of the close. A cell is a
-- signpost whose value is the fold of a journal of signed transitions, each with the grant that
-- authorises it. A tree lists the objects of a directory by name, and the merge works on the
-- entries' identities, opening subtrees only where it has to and can. A repository holds all this in
-- files: keeping seals the working tree under the closes that govern its paths and names the new
-- commit by a ref, and opening walks back from that ref with the grants that a person holds.
-- Pointing a signpost seals a transition and names it by the signpost's ref. Sharing writes a grant
-- into the directory of its holder, and a change of the lock issues new grants to everyone who keeps
-- up. The command line makes a folder a commons, runs one of these on the commons that a folder is,
-- or shows what a person can see of the tree, of the history and of a signpost.
--
-- The files:
--   Common and its children   what the others share: tests on numbers, lists, results of fallible
--                             code (Fallible), bytes and text (Bytes), the bits of powers (Bits),
--                             sorted association lists (Map)
--   Crypto   the libraries blake3, chacha20poly1305, ed25519-dalek, x25519-dalek and postcard, as
--            operations with the laws that their documentation promises
--   Facet    crates/cc-core/src/facet.rs and error.rs: Facet, Powers and their words, Error
--   Aead     crates/cc-core/src/aead.rs: derive, seal, open (open_box here), wrap_key, unwrap_key
--   Close    crates/cc-core/src/close.rs: CloseRecord with found, rotate, content_key_at,
--            shape_key_at, walk_chain, binding_key; facet_key, lower_facet_key, object_key
--   Seal     crates/cc-core/src/seal.rs: SealedObject with seal, open_payload, open_shape, encode,
--            decode, cipher_id (cipher_id_of here); plain_id and cipher_id of id.rs
--   Grant    crates/cc-core/src/grant.rs: Identity, WrappedKey, Grant with issue_root, attenuate,
--            verify, unwrap_key, covers. The fields of GrantBody but for the parent are the record
--            Terms; check_signature and check_link are the parts of verify, rewrap one of attenuate
--   Cell     crates/cc-cell/src/lib.rs: CellDecl, Transition with make, verify, check_link; fold,
--            check_forward, seal_transition, open_transition
--   Dag      crates/cc-dag/src/tree.rs, commit.rs and merge.rs: Tree, Commit, three_way, diverged,
--            MergedTree with conflicts and is_clean
--   Id       crates/cc-core/src/id.rs: to_hex, from_hex, short
--   Store    crates/cc-store/src/lib.rs: put, get, set_ref, get_ref
--   Repo     crates/close/src/repo.rs, on what it has read from files: best_facet, facet_key_for,
--            governing, card_for, guess_type, is_descendant
--   World    crates/close/src/repo.rs: the files of a repository as a state (World/Step, with the
--            monad of the code that changes it), what is read of them (World/Files), and what a
--            command has printed when it ends (World/Shown): load_close,
--            closemap, governing (governing_close here), identity, public_of, name_of_signer, grants_for,
--            facet_key_for (key_for), best_facet (best_facet_of), current_content_key, load_sealed,
--            open_tree, open_blob, open_card
--   Segments crates/close/src/repo.rs: segments
--   Snapshot crates/close/src/repo.rs: keep, snap_dir, snap_file, put_sealed, commons_id; the working
--            tree is the data type Listing
--   Browse   crates/close/src/repo.rs and main.rs: head_commit, commit_at, resolve_path, and the
--            command open (open_path)
--   Signpost crates/close/src/repo.rs: cell_index, cell_decl, cell_head, point, cell_new; what point
--            decides before it writes is decide_move, and what it writes is record_move; and
--            crates/close/src/main.rs: trail and whereis (Signpost/Trail)
--   History  crates/close/src/main.rs: the command history, whose loop is walk_back, and
--            resolve_keep_ref
--   Look     crates/close/src/main.rs: the command look, render_tree, describe_leaf, hint_ask; a line
--            is the name, the entry and what is shown of it (Sight)
--   Sharing  crates/close/src/repo.rs and main.rs: new_identity, found_close, save_close, add_grant
--            and the command protect; share (Sharing/Hand) and rotate (Sharing/Relock)
--   Start    crates/close/src/repo.rs: init, and open (open_commons); a Folder is bare, a commons, or
--            what an init that failed leaves
--   Glossary crates/close/src/glossary.rs: the terms, and explain
--   Cli      crates/close/src/main.rs: Command with CellCmd and IdCmd in it, and run; what a command
--            shows is an Output
--   Date     crates/close/src/main.rs: date
--   Tests    a toy of the libraries that keeps all their laws, and runs of the theorems
--
-- Conventions. A byte array is a list of numbers, and a text the list of its code points; IsKey says
-- that there are 32 bytes. A map is an association list in the order of its keys, as a BTreeMap
-- iterates. Fallible code returns a Result with the source's errors, and the guards stand in the
-- source's order, so that the first that fails decides the error. A struct that the source mutates
-- is passed in and returned. Counters wrap at their width: the epoch is a u32 and a position in a
-- journal a u64, as in a release build; a debug build panics there, and the theorems that count
-- assume that the counter does not reach its end. Randomness (the ephemeral secret of a wrapping,
-- the seed of a lock change) is an argument in the crates below close, and there the next result of
-- a stream that the state holds. Time is an argument, as in the source, and the clock of a command
-- stands still while it runs.
--
-- In close, a file is the bytes in it, and a codec reads and writes them for serde_json as well as
-- for postcard. A command is a step on the World that may fail, and what it wrote before it failed
-- stays written. A directory of grants is a map from file names to bytes, so that it is read in the
-- order of the names. An error is the place that it comes from, without its message; a path is the
-- list of its names, as segments cuts it. What a command prints stands as data, and as text where
-- the text is the point (history_lines, step_lines, explain). What is shown in part before an error
-- stays shown. The line that says that the rest of a trail is sealed keeps the address of the
-- object that is (rest_sealed), which is not printed. run is given the working tree, the name in
-- $USER, and fuel. The .cell files that cell_new leaves in the working tree are the declarations of
-- the state; the directory that a keeping is given is the working tree as it then stands.
--
-- Termination. The loop of walk_chain is recursion on the epoch and the loop of fold on the journal.
-- three_way loads its subtrees from outside and recurses on them, so it takes fuel, one unit for a
-- level of the trees. A tree's address is a hash over those of its entries, so each recursion goes
-- to a tree of a lower rank, and more units than the ranks of our entries are enough. The loops of
-- history, trail and look follow addresses too, and have the same kind of fuel: one unit for a
-- commit, a move or a level of the trees, so that more units than the rank of the first address are
-- enough. Where fuel runs out, what is shown is marked as unfinished. The oracle is_descendant has a
-- bound of its own, 10 000 steps, which is the fuel of search_from.
--
-- Assumptions. IsLawful holds what the libraries document: lengths, decryption after encryption
-- under admissible keys, verification of signatures made, the agreement of x25519. IsCodec says
-- that postcard reads back what it writes, and ReadsBack says it of one value. IsCoherent, of a
-- state, says that close files hold the closes that they are named for, that their chains are in
-- order, and that the grants that a person holds carry the keys of their closes (IsGenuine): verify
-- checks the terms of a grant and not the key that is wrapped in it. The store keeps, beside its
-- files, the byte strings that were put into it (offered), which no operation reads. Theorems on
-- the store that address objects by their hashes do not assume that hashes never collide: they say
-- what holds unless the final store shows a Collision, bytes that were put into it at whose address
-- other bytes of the same hash stand.
--
-- Not modelled: failures of the file system other than a file that is not there; in the command
-- line the parsing of arguments, which clap does, and the sentences around what a command shows;
-- the texts of errors; the encode and decode functions that only call postcard; and paths of the
-- file system that lead to one file: people, grants and secrets stand under the name as it was
-- typed, where the source joins it to a directory, so that a name like ./dana is not taken for
-- dana.
pub mod Common
pub mod Crypto
pub mod Facet
pub mod Aead
pub mod Close
pub mod Seal
pub mod Grant
pub mod Cell
pub mod Dag
pub mod Id
pub mod Store
pub mod World
pub mod Browse
pub mod History
pub mod Snapshot
pub mod Date
pub mod Segments
pub mod Signpost
pub mod Sharing
pub mod Look
pub mod Start
pub mod Cli
pub mod Glossary
pub mod Repo
pub mod Tests
