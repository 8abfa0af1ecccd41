-- ===== src/Tests/Traces.antt =====
-- services/infra/src/api/traces.ts at a trace that two agents upload.
use inspect_element.Prelude.{◌≡◌, refl, [], arith}
use inspect_element.Prelude.Texts.{Text, codes, is_hex, to_lower, text_eq}
use inspect_element.Prelude.Results.{Result, err, internal, ok}
use inspect_element.Prelude.Tables.{find}
use inspect_element.Store.Provider.{sqlite, supabase}
use inspect_element.Store.Traces.{get_trace_by_digest}
use inspect_element.Canonical.Value.{string}
use inspect_element.Api.Traces.{
  TraceBody, TraceAckContext, TraceAck, Signed, Uploaded, accepts_trace, to_canonical_bytes, upload,
  pin_and_sign,
}
use inspect_element.Api.Traces.Laws.{AreHashed, upload-AreHashed, upload_again}
use inspect_element.Tests.Api.{hex}

abbrev hash : Text → Text
hash t = hex 64 b'd'

abbrev pin : Text → Result Text
pin t = ok (codes "ipfs://t")

abbrev chain : TraceAckContext
chain = record { guarded_executor = hex 40 b'9'; chain_id = 84532 }

abbrev sign : TraceAckContext → TraceAck → Result Signed
sign ctx a = ok (record { signer = a.owner; signature = a.agent_id })

abbrev same : Text → Text
same t = t

abbrev first_upload : TraceBody
first_upload = record {
  agent_id = hex 64 b'1';
  owner = hex 40 b'2';
  context_digest = hex 64 b'd';
  trace = string (codes "t");
}

abbrev second_upload : TraceBody
second_upload = record first_upload { agent_id = hex 64 b'3'; owner = hex 40 b'4' }

upload-AreHashed_example :
    AreHashed hash (upload hash pin sign same 60 sqlite (ok chain) 100 first_upload []).table
upload-AreHashed_example =
    upload-AreHashed hash pin sign same 60 sqlite (ok chain) 100 first_upload [] tt

abbrev after_first : Uploaded
after_first = upload hash pin sign same 60 supabase (ok chain) 100 first_upload []

upload_again_example :
    upload hash pin sign same 60 supabase (ok chain) 150 second_upload after_first.table ≡ record {
      table = after_first.table;
      answer = ok (record {
        trace_uri = codes "ipfs://t";
        context_digest = to_lower (hex 64 b'd');
        uri_hash = to_lower (hex 64 b'd');
        expires_at = 160;
        signature = to_lower (hex 64 b'1');
        signer = to_lower (hex 40 b'2');
        guarded_executor = hex 40 b'9';
        chain_id = 84532;
        agent_id = hex 64 b'3';
        owner = hex 40 b'4';
      });
    }
unfolding accepts_trace is_hex to_canonical_bytes get_trace_by_digest find
upload_again_example =
    upload_again hash pin sign same 60 supabase chain 100 150 first_upload second_upload (codes "t")
      (codes "ipfs://t") (record { signer = hex 40 b'2'; signature = hex 64 b'1' }) [] refl refl
      refl refl refl refl refl refl refl (omega arith)

-- Without a deployment manifest the upload throws, also of a trace that is in the cache.
no_manifest :
    upload hash pin sign same 60 supabase (err internal) 150 second_upload after_first.table
    ≡ record { table = after_first.table; answer = err internal }
unfolding upload accepts_trace is_hex to_canonical_bytes pin_and_sign get_trace_by_digest find
    text_eq to_lower
no_manifest = refl
