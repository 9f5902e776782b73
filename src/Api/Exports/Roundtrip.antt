-- ===== src/Api/Exports/Roundtrip.antt =====
-- An export that is made can be downloaded.
use hate_speech_rag_service.Common.{nat_Eq}
use hate_speech_rag_service.Db.Database.{Database}
