-- ===== src/Tests/Exports.antt =====
-- The small book with its sale: its XML imported, and the lines of its PDF.
use finest_vx.Prelude.{◌≡◌, refl, arith, ok, All}
use finest_vx.Export.{ExportArtifact}
use finest_vx.Export.Pages.{IsInside, draw_book-IsInside}
use finest_vx.Export.Pdf.{draw_book}
use finest_vx.Export.Saft.{book_from_saft}
use finest_vx.Export.SaftRoundTrip.{book_from_saft-to_xml}
use finest_vx.Export.Xml.{book_element, to_xml}
use finest_vx.Tests.Codecs.{codec, codec_laws}
use finest_vx.Tests.Fixtures.{engine, engine_laws}
use finest_vx.Tests.Markup.{library, library_laws}
use finest_vx.Tests.Payloads.{full_book, full_book-IsConstructed}

abbrev artifact : ExportArtifact
artifact = record {
  format_name = "xml";
  media_type = "application/xml";
  content = library.tostring (book_element library codec full_book);
}

written : to_xml library codec full_book ≡ ok artifact
unfolding to_xml finest_vx.Export.is_settable finest_vx.Export.attributes_settable book_element
    finest_vx.Export.Xml.account_element finest_vx.Export.Xml.period_element
    finest_vx.Export.Xml.transaction_element finest_vx.Export.Xml.entry_element
written = refl

book_from_saft-to_xml_example :
    book_from_saft library engine codec "B1.xml" artifact.content ≡ ok full_book
book_from_saft-to_xml_example =
    book_from_saft-to_xml library engine codec library_laws engine_laws codec_laws full_book
      artifact "B1.xml" full_book-IsConstructed written

draw_book-IsInside_example : All (IsInside 2) (draw_book library codec full_book)
draw_book-IsInside_example = draw_book-IsInside library codec 2 full_book (omega arith, tt)
