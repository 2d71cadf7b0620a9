-- ===== src/Ledger/Tests.antt =====
-- A queue of two with a call whose row and body are written.
use songguo.Prelude.{ℕ, zero, suc, ◌≡◌, refl, false, none, some, List, [], ◌∷◌, arith}
use songguo.Prelude.Int.{pos}
use songguo.Ledger.{
  Op, Kind, upsert, payload, Answer, done, busy, Call, create_call, finalize_call, new,
  set_payload_budget, admit, admit_payload, write, retry_busy, write_lag,
}
use songguo.Ledger.Retries.{Written, write-Written}
use songguo.Ledger.Lag.{Applied}
use songguo.Ledger.System.{System, Reach, here, next, admits, sends, takes, finishes, start}
use songguo.Ledger.System.Order.{IsOrdered, Reach-IsOrdered}
use songguo.Ledger.System.Bytes.{IsWithin, Reach-IsWithin}

abbrev row : Op
row = record {
  kind = upsert;
  entry = "c1";
  body = none;
  call_id = "";
  has_composition = false;
  payload_bytes = 0;
  submitted = 0;
}

abbrev body : Op
body = record row {
  kind = payload;
  call_id = "c1";
  body = some (record { req_body = 40; resp_body = 70 });
}

-- The second answer is a busy one.
abbrev answers : ℕ → Answer
answers zero = done
answers (suc zero) = busy
answers (suc (suc n)) = done

created_once : write row answers ≡ (
  (create_call "c1", done) ∷ (finalize_call "c1", busy) ∷ (finalize_call "c1", done) ∷ [],
  done,
)
unfolding write
created_once = refl

write-Written_example : Written row (write row answers).0 (write row answers).1
write-Written_example = write-Written row answers

-- The body and the row are submitted, a second body is shed, and the row is written.
written_reached : (s : System) × Reach (start (pos 2) (pos 100)) s
unfolding admit set_payload_budget songguo.Ledger.send songguo.Ledger.finish_apply
written_reached = (
  _,
  next
      (next
        (next
          (next (next (next here (admits body 3 _ refl)) (admits row 4 _ refl))
            (admits body 5 _ refl))
          (sends [] (record row { submitted = 4 })
            (record body { payload_bytes = 110; submitted = 3 } ∷ []) false _ refl (omega arith)))
        (takes (record row { submitted = 4 }) [] _ refl refl))
      (finishes (record row { submitted = 4 }) answers 9 _ refl),
)

Reach-IsOrdered_example : IsOrdered written_reached.0
Reach-IsOrdered_example = Reach-IsOrdered (pos 2) (pos 100) written_reached.0 written_reached.1

Reach-IsWithin_example : IsWithin written_reached.0
Reach-IsWithin_example = Reach-IsWithin (pos 2) (pos 100) written_reached.0 written_reached.1

abbrev two_applied : List Applied
two_applied =
    record { op = record row { submitted = 4 }; answer = done; at = 9 }
    ∷ record { op = record body { submitted = 2 }; answer = busy; at = 20 }
    ∷ []
